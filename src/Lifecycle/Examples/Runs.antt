-- ===== src/Lifecycle/Examples/Runs.antt =====
-- The life of a run, its gate, its fence and its pauses, at concrete runs.
use stoker.Prelude.{ℕ, ◌+◌, ◌-◌, ◌≡◌, ◌≢◌, refl, none, some, List, [], ◌∷◌, arith}
use stoker.Lifecycle.Model.{RunState, LeaseState, Db, ok, raised}
use stoker.Lifecycle.Rows.{find_lease}
use stoker.Lifecycle.Complete.{record_final}
use stoker.Lifecycle.Heartbeat.{Command, heartbeat_command, paused_seconds}
use stoker.Lifecycle.Operator.{pause_run, resume_run}
use stoker.Lifecycle.Supervisor.{end_at}
use stoker.Lifecycle.Step.{Op, kept, step, run_steps}
use stoker.Lifecycle.Later.{Later}
use stoker.Lifecycle.Later.Steps.{step-Later, run_steps-Later}
use stoker.Lifecycle.Gate.{recovered-no_release}
use stoker.Lifecycle.Claim.{claim_lease}
use stoker.Lifecycle.Fencing.{final-once}
use stoker.Lifecycle.Pauses.{pause-resume}
use stoker.Lifecycle.Examples.{db_with, driver, settings, payload, delivered, lease}

abbrev ready_fleet : Db
ready_fleet = db_with RunState.provisioning none LeaseState.ready LeaseState.claimed

abbrev running_fleet : Db
running_fleet = db_with RunState.running (some 2000000) LeaseState.running LeaseState.lost

step-Later_example : Later ready_fleet.run (step 3000000 (Op.ready 1 (some 101)) ready_fleet).run
step-Later_example = step-Later 3000000 (Op.ready 1 (some 101)) ready_fleet

abbrev whole_run : List (ℕ × Op)
whole_run =
    (3000000, Op.ready 1 (some 101))
    ∷ (6000000, Op.heartbeat 0 (some 100) payload)
    ∷ (70000000, Op.tick 0 (some driver) settings)
    ∷ (71000000, Op.final 0 (delivered 3000) [] (some 100))
    ∷ (72000000, Op.final 1 (delivered 3000) [] (some 101))
    ∷ []

run_steps-Later_example : Later ready_fleet.run (run_steps ready_fleet whole_run).run
run_steps-Later_example = run_steps-Later ready_fleet whole_run

recovered-no_release_example :
    ((heartbeat_command 9000000 1 (lease 1 LeaseState.lost) running_fleet).0
      ≢ Command.release 2000000)
    × ((heartbeat_command 9000000 1 (lease 1 LeaseState.lost) running_fleet).1.state
        ≡ LeaseState.running)
recovered-no_release_example =
    recovered-no_release 9000000 2000000 2000000 (lease 1 LeaseState.lost) running_fleet refl refl
      refl

abbrev taken : Db
taken = elim (claim_lease 8000000 7 none 901 running_fleet) [
  | ok (slot, after) ↦ after
  | raised e ↦ running_fleet
]

abbrev first_final : Db
first_final = kept running_fleet (record_final 9000000 0 (delivered 5) [] (some 100) running_fleet)

final-once_example :
    (kept first_final (record_final 9100000 0 (delivered 6) [] (some 100) first_final)).run.totals
    ≡ first_final.run.totals
unfolding find_lease
final-once_example =
    final-once 9000000 9100000 0 (delivered 5) (delivered 6) [] [] (some 100)
      (lease 0 LeaseState.running) running_fleet refl refl

abbrev paused : Db
paused = kept running_fleet (pause_run 9000000 driver "ops" running_fleet)

abbrev resumed : Db
resumed = kept paused (resume_run 19000000 driver "ops" paused)

pause-resume_example :
    (resumed.run.state ≡ RunState.running)
    × (paused_seconds 20000000 resumed.run
        ≡ paused_seconds 20000000 running_fleet.run + (19000000 - 9000000))
    × (end_at 20000000 2000000 resumed.run
        ≡ end_at 20000000 2000000 running_fleet.run + (19000000 - 9000000))
pause-resume_example =
    pause-resume 9000000 19000000 20000000 2000000 driver driver "ops" running_fleet refl refl
      (omega arith)
