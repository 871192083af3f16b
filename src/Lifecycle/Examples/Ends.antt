-- ===== src/Lifecycle/Examples/Ends.antt =====
-- How a run ends, at concrete runs.
use stoker.Prelude.{◌<◌, ◌≡◌, refl, true, false, some, [], ◌∷◌, arith}
use stoker.Lifecycle.Model.{RunState, LeaseState, Reason, is_terminal, EventKind, Db}
use stoker.Lifecycle.Complete.{
  any_live, any_done, delivered_events, outcome_state, terminal_state_for, finish,
  maybe_complete_run,
}
use stoker.Lifecycle.Rows.{transition_run}
use stoker.Lifecycle.Supervisor.{drain_since, supervise_run}
use stoker.Lifecycle.Ending.{maybe_complete_run-completed}
use stoker.Lifecycle.Draining.{supervise_run-ends_draining}
use stoker.Lifecycle.Examples.{db_with, run_in, driver, settings, delivered}

abbrev both_done : Db
both_done = record (db_with RunState.running (some 2000000) LeaseState.done LeaseState.lost) {
  run = record (run_in RunState.running (some 2000000)) { totals = delivered 3000 };
}

maybe_complete_run-completed_example :
    (any_live both_done.leases ≡ false)
    × (any_done both_done.leases ≡ true)
    × (0 < delivered_events both_done.run)
unfolding maybe_complete_run finish transition_run terminal_state_for outcome_state
maybe_complete_run-completed_example =
    maybe_complete_run-completed 70000000 both_done (λ h. cc h) refl

abbrev running : Db
running = db_with RunState.running (some 2000000) LeaseState.running LeaseState.running

abbrev draining : Db
draining = record (db_with RunState.draining (some 2000000) LeaseState.running LeaseState.done) {
  events =
      record {
        ts = 62000000;
        actor = "system";
        kind = EventKind.state RunState.running RunState.draining (some Reason.duration_complete);
      }
      ∷ [];
}

supervise_run-ends_draining_example :
    is_terminal (supervise_run 110000000 0 (some driver) settings draining).run.state ≡ true
unfolding drain_since
supervise_run-ends_draining_example =
    supervise_run-ends_draining 110000000 0 62000000 (some driver) settings draining refl
      (omega arith) refl (omega arith)
