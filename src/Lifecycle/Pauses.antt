-- ===== src/Lifecycle/Pauses.antt =====
-- The accounting of pauses, and the end of the run that it moves.
use stoker.Prelude.{ℕ, ◌+◌, ◌-◌, ◌≤◌, ◌≡◌, none, arith, String}
use stoker.Lifecycle.Model.{RunState, Db, Driver}
use stoker.Lifecycle.Rows.{transition_run, call_driver}
use stoker.Lifecycle.Heartbeat.{paused_seconds}
use stoker.Lifecycle.Operator.{pause_run, resume_run, extend_driver_deadline}
use stoker.Lifecycle.Supervisor.{end_at}
use stoker.Lifecycle.Step.{kept}

run-extend :
    (now : ℕ) (d : Driver) (paused : ℕ) (db : Db)
    → (extend_driver_deadline now d paused db).run ≡ db.run
unfolding extend_driver_deadline call_driver
run-extend now d paused db = ground arith

-- A running run that is paused at one instant and resumed at a later one runs again, with exactly
-- the time between them added to its paused time; so its end, at any later instant, has moved by
-- exactly that time.
pub pause-resume :
    (t1 t2 later t0 : ℕ) (d e : Driver) (actor : String) (db : Db)
    → db.run.state ≡ RunState.running
    → db.run.paused_at ≡ none
    → t1 ≤ t2
    → let paused = kept db (pause_run t1 d actor db) in
      let resumed = kept paused (resume_run t2 e actor paused) in
      (resumed.run.state ≡ RunState.running)
      × (paused_seconds later resumed.run ≡ paused_seconds later db.run + (t2 - t1))
      × (end_at later t0 resumed.run ≡ end_at later t0 db.run + (t2 - t1))
unfolding pause_run resume_run transition_run extend_driver_deadline call_driver
pause-resume t1 t2 later t0 d e actor db s p h = ground arith
