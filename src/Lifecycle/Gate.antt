-- ===== src/Lifecycle/Gate.antt =====
-- The release gate: when T0 is set, and what a heartbeat then answers.
use stoker.Prelude.{
  ℕ, ◌≡◌, ◌≢◌, ap, Bool, true, false, Option, none, some, List, [], ◌∷◌, arith, any, ◌==◌,
  if◌then◌else◌,
}
use stoker.Lifecycle.Model.{LeaseState, is_pending, Run, Db, Lease}
use stoker.Lifecycle.Rows.{clear_retarget}
use stoker.Lifecycle.Release.{release}
use stoker.Lifecycle.Heartbeat.{
  Command, steady_command, serving_command, heartbeat_command, recover, is_ending,
}

-- The leases but the first of a slot.
abbrev pub others : ℕ → List Lease → List Lease
others slot [] = []
others slot (l ∷ ls) = let rest = others slot ls in if l.slot == slot then ls else l ∷ rest

abbrev pub any_pending : List Lease → Bool
any_pending = any (λ (l : Lease). is_pending l.state)

recovered_state :
    (run : Run) (l : Lease) (t0 : ℕ)
    → l.state ≡ LeaseState.lost
    → run.t0 ≡ some t0
    → (recover run l).state ≡ LeaseState.running
unfolding recover
recovered_state run l t0 s z = ground arith

not_release : (c : Command) → Bool
not_release (Command.release t) = false
not_release _ = true

steady-no_release :
    (run : Run) (l : Lease)
    → l.state ≡ LeaseState.running
    → (not_release (steady_command run l).0 ≡ true)
      × ((steady_command run l).1.state ≡ LeaseState.running)
unfolding steady_command not_release clear_retarget
steady-no_release run l s = ground arith

serving-no_release :
    (now : ℕ) (l : Lease) (db : Db) (o : Option ℕ)
    → l.state ≡ LeaseState.running
    → (not_release (serving_command now l db o).0 ≡ true)
      × ((serving_command now l db o).1.state ≡ LeaseState.running)
unfolding serving_command
serving-no_release now l db none s = steady-no_release db.run l s
serving-no_release now l db (some t0) s = ground (arith, steady-no_release db.run l)

heartbeat-no_release :
    (now t0 : ℕ) (l : Lease) (db : Db)
    → l.state ≡ LeaseState.lost
    → db.run.t0 ≡ some t0
    → is_ending db.run.state ≡ false
    → (not_release (heartbeat_command now 1 l db).0 ≡ true)
      × ((heartbeat_command now 1 l db).1.state ≡ LeaseState.running)
unfolding heartbeat_command
heartbeat-no_release now t0 l db s z e =
    ground
      (arith, serving-no_release now (recover db.run l) db db.run.t0, recovered_state db.run l t0)

-- A lost lease whose worker is back after T0, of a run that is not ending, becomes running and is
-- not answered a release of any instant.
pub recovered-no_release :
    (now t0 t : ℕ) (l : Lease) (db : Db)
    → l.state ≡ LeaseState.lost
    → db.run.t0 ≡ some t0
    → is_ending db.run.state ≡ false
    → ((heartbeat_command now 1 l db).0 ≢ Command.release t)
      × ((heartbeat_command now 1 l db).1.state ≡ LeaseState.running)
unfolding not_release
recovered-no_release now t0 t l db s z e = (
  λ released.
      let shown = heartbeat-no_release now t0 l db s z e in cc (ap not_release released, shown.0),
  (heartbeat-no_release now t0 l db s z e).1,
)
