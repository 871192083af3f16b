-- ===== src/Lifecycle/Examples/Sweeps.antt =====
-- The start-up sweep, at a concrete estate: driver 1 lists the workloads of run 4, which is running, of
-- run 5, which has ended, and of run 9, which has no row; driver 2 cannot enumerate. While the sweep
-- runs another session launches run 6.
use stoker.Prelude.{◌≡◌, refl, ℕ, true, none, some, List, [], ◌∷◌, map, ◌==◌, if◌then◌else◌, arith}
use stoker.Lifecycle.Model.{RunState, LeaseState, Db}
use stoker.Lifecycle.Examples.{db_with, run_in}
use stoker.Lifecycle.Sweep.{
  Runs, Listing, Estate, Fleet, Request, Session, commit_before, insert_id, strays, audit_stray,
  destroy_stray, sweep_stray, sweep_strays, sweep_driver, sweep_fleet, sweep_fleets,
  sweep_stray_fleets,
}
use stoker.Lifecycle.Sweep.Spared.{LeaveGone, nothing, write_then, has_ended}
use stoker.Lifecycle.Sweep.Asked.{was_asked}
use stoker.Lifecycle.Sweep.Strays.{sweep-asks_strays}

abbrev running : Db
running = db_with RunState.running (some 2000000) LeaseState.running LeaseState.running

abbrev ended : Db
ended = record (db_with RunState.completed (some 2000000) LeaseState.done LeaseState.done) {
  run = record (run_in RunState.completed (some 2000000)) { ended_at = some 70000000 };
}

abbrev rows : Runs
rows id = if id == 4 then some running else if id == 5 then some ended else none

abbrev launch : Runs → Runs
launch runs id = if id == 6 then some running else runs id

abbrev estates : ℕ → Estate
estates i = record {
  listing = if i == 1 then Listing.owned (9 ∷ 4 ∷ 5 ∷ 6 ∷ []) else Listing.not_supported;
  destroy_ok = λ id. id == 5;
}

abbrev fleets : List Fleet
fleets =
    record { fleet_name = "swarm"; driver = some 2 }
    ∷ record { fleet_name = "k8s"; driver = some 1 }
    ∷ record { fleet_name = "k8s-too"; driver = some 1 }
    ∷ []

abbrev session : Session
session = record { held = rows; runs = rows; others = (λ runs. runs) ∷ launch ∷ []; requests = [] }

launch_leaves : (id : ℕ) → has_ended (rows id) ≡ true → LeaveGone id session.others
launch_leaves id h = write_then (λ runs e. e) (write_then (λ runs e. ground (arith, h, e)) nothing)

sweep-asks_strays_example :
    was_asked 1 5 (sweep_stray_fleets 1000000 estates fleets session).requests ≡ true
sweep-asks_strays_example =
    sweep-asks_strays estates 1000000 1 5 (9 ∷ 4 ∷ 5 ∷ 6 ∷ []) fleets session refl refl refl refl
      refl (launch_leaves 5 refl)

-- Runs 5 and 9 are swept, in this order; run 6 is spared, which was launched meanwhile.
sweep_two :
    map (λ (r : Request). r.target) (sweep_stray_fleets 1000000 estates fleets session).requests
    ≡ 9 ∷ 5 ∷ []
unfolding sweep_stray_fleets sweep_fleets sweep_fleet sweep_driver sweep_strays strays insert_id
    sweep_stray destroy_stray audit_stray commit_before
sweep_two = refl
