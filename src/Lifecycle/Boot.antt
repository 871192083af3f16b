-- ===== src/Lifecycle/Boot.antt =====
-- server/lifecycle.py: what happens to one run at start-up (the first phase of reconcile_on_boot), and
-- the reap of an ended run's fleet after a tick (_reap_terminal_fleets).
-- The status probe of the run's driver is an argument: it is absent where no driver can be resolved, and
-- may raise. The second phase is Lifecycle/Sweep.
use stoker.Prelude.{
  ℕ, ◌+◌, Bool, true, false, not, ◌&&◌, Option, none, some, List, any, map, leb, ◌==◌,
  if◌then◌else◌,
}
use stoker.Lifecycle.Model.{
  RunState, LeaseState, Reason, is_terminal, Lease, EventKind, Event, Driver, Db,
}
use stoker.Lifecycle.Rows.{append_event, transition_run}
use stoker.Lifecycle.Supervisor.{destroy_fleet, is_unresolved}

-- driver.status: the workers that the workload wants and has.
pub data Probe : Type 0 where
  no_driver probe_failed : Probe
  workload : ℕ → ℕ → Probe

unfoldable pub orphan : ℕ → Db → Db
orphan now db = transition_run now RunState.failed (some Reason.orphaned) "system" db

abbrev pub lose_unresolved : Lease → Lease
lose_unresolved l = record l { state = if is_unresolved l then LeaseState.lost else l.state }

unfoldable pub lose_leases : Db → Db
lose_leases db = record db { leases = map lose_unresolved db.leases }

-- A run whose workload is gone is failed, any other is adopted.
unfoldable pub reconcile_probed : ℕ → Probe → Db → Db
reconcile_probed now no_driver db = db
reconcile_probed now probe_failed db = db
reconcile_probed now (workload desired running) db =
    if running == 0 && desired == 0
    then lose_leases (orphan now db)
    else append_event now "system" EventKind.adopted db

unfoldable pub reconcile_on_boot : ℕ → Probe → Db → Db
reconcile_on_boot now probe db =
    if is_terminal db.run.state
    then db
    else if not db.run.has_driver_ref
    then orphan now db
    else reconcile_probed now probe db

-- TERMINAL_REAP_WINDOW_S
abbrev pub terminal_reap_window : ℕ
terminal_reap_window = 3600000000

abbrev pub is_destroyed : EventKind → Bool
is_destroyed EventKind.fleet_destroyed = true
is_destroyed _ = false

-- _has_event of fleet_destroyed
abbrev pub has_destroyed : List Event → Bool
has_destroyed = any (λ (e : Event). is_destroyed e.kind)

abbrev pub ended_lately : ℕ → Option ℕ → Bool
ended_lately now none = false
ended_lately now (some ended) = leb now (ended + terminal_reap_window)

-- One run of _reap_terminal_fleets.
unfoldable pub reap_terminal : ℕ → Option Driver → Db → Db
reap_terminal now d db =
    if is_terminal db.run.state
      && ended_lately now db.run.ended_at
      && db.run.has_driver_ref
      && not (has_destroyed db.events)
    then destroy_fleet now d db
    else db
