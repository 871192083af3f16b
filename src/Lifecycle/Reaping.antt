-- ===== src/Lifecycle/Reaping.antt =====
-- The destruction of an ended run's fleet.
use stoker.Prelude.{ℕ, ◌+◌, ◌≤◌, ◌≡◌, true, false, Option, some, ◌∷◌, arith, le→leb}
use stoker.Lifecycle.Model.{is_terminal, DriverCall, Driver, Db}
use stoker.Lifecycle.Rows.{call_driver}
use stoker.Lifecycle.Supervisor.{destroy_fleet}
use stoker.Lifecycle.Boot.{terminal_reap_window, has_destroyed, reap_terminal}

due :
    (now ended : ℕ) (d : Driver) (db : Db)
    → is_terminal db.run.state ≡ true
    → db.run.ended_at ≡ some ended
    → now ≤ ended + terminal_reap_window
    → db.run.has_driver_ref ≡ true
    → has_destroyed db.events ≡ false
    → reap_terminal now (some d) db ≡ destroy_fleet now (some d) db
unfolding reap_terminal
due now ended d db t e w r h = ground (arith, le→leb now (ended + terminal_reap_window) w)

destroyed :
    (now : ℕ) (d : Driver) (db : Db)
    → db.run.has_driver_ref ≡ true
    → d.destroy_ok ≡ true
    → ((destroy_fleet now (some d) db).calls ≡ DriverCall.destroy ∷ db.calls)
      × (has_destroyed (destroy_fleet now (some d) db).events ≡ true)
unfolding destroy_fleet call_driver
destroyed now d db r k = ground arith

left_alone :
    (later : ℕ) (again : Option Driver) (db : Db)
    → has_destroyed db.events ≡ true
    → reap_terminal later again db ≡ db
unfolding reap_terminal
left_alone later again db h = ground arith

-- The fleet of a run that has a workload, ended within the window and has not been destroyed yet is
-- destroyed by the reap after a tick where the driver can do so, and no later reap, at any instant and
-- with any driver, changes anything or asks the driver again.
pub reap_terminal-once :
    (now ended later : ℕ) (d : Driver) (again : Option Driver) (db : Db)
    → is_terminal db.run.state ≡ true
    → db.run.ended_at ≡ some ended
    → now ≤ ended + terminal_reap_window
    → db.run.has_driver_ref ≡ true
    → has_destroyed db.events ≡ false
    → d.destroy_ok ≡ true
    → ((reap_terminal now (some d) db).calls ≡ DriverCall.destroy ∷ db.calls)
      × (reap_terminal later again (reap_terminal now (some d) db) ≡ reap_terminal now (some d) db)
reap_terminal-once now ended later d again db t e w r h k =
    let asked = destroyed now d db r k in
    rw (due now ended d db t e w r h)
      (asked.0, left_alone later again (destroy_fleet now (some d) db) asked.1)
