-- ===== src/Lifecycle/Step.antt =====
-- The operations on a run as one step: what the agent routes (server/routes/agent.py), the operator
-- routes, the supervisor loop and the start-up call. An operation that raises is rolled back by its route.
use stoker.Prelude.{ℕ, Bool, Option, List, [], ◌∷◌, String}
use stoker.Lifecycle.Model.{Counters, Db, Driver, Result, ok, raised}
use stoker.Lifecycle.Release.{mark_ready}
use stoker.Lifecycle.Complete.{record_final}
use stoker.Lifecycle.Claim.{claim_lease}
use stoker.Lifecycle.Heartbeat.{Payload, record_heartbeat}
use stoker.Lifecycle.Operator.{stop_run, pause_run, resume_run, scale_run, rescale_run}
use stoker.Lifecycle.Backpressure.{Settings}
use stoker.Lifecycle.Supervisor.{supervise_run}
use stoker.Lifecycle.Boot.{Probe, reconcile_on_boot, reap_terminal}

pub data Op : Type 0 where
  claim : ℕ → Option ℕ → ℕ → Op
  ready : ℕ → Option ℕ → Op
  heartbeat : ℕ → Option ℕ → Payload → Op
  final : ℕ → Counters → List String → Option ℕ → Op
  stop : Driver → Bool → String → Op
  pause : Driver → String → Op
  resume : Driver → String → Op
  scale : Driver → ℕ → (ℕ → ℕ) → String → Op
  rescale : Option ℕ → String → Op
  tick : ℕ → Option Driver → Settings → Op
  reap : Option Driver → Op
  boot : Probe → Op

-- The rows after an operation that may raise.
abbrev pub kept : Db → Result Db → Db
kept db (raised e) = db
kept db (ok db') = db'

abbrev pub kept_claim : Db → Result (ℕ × Db) → Db
kept_claim db (raised e) = db
kept_claim db (ok (slot, db')) = db'

unfoldable pub step : ℕ → Op → Db → Db
step now (claim holder hint_slot fresh_id) db =
    kept_claim db (claim_lease now holder hint_slot fresh_id db)
step now (ready slot lease_id) db = (mark_ready now slot lease_id db).1
step now (heartbeat slot lease_id payload) db = (record_heartbeat now slot lease_id payload db).1
step now (final slot summary log_tail lease_id) db =
    kept db (record_final now slot summary log_tail lease_id db)
step now (stop d force actor) db = stop_run now d force actor db
step now (pause d actor) db = kept db (pause_run now d actor db)
step now (resume d actor) db = kept db (resume_run now d actor db)
step now (scale d workers ids actor) db = kept db (scale_run now d workers ids actor db)
step now (rescale rate_value actor) db = kept db (rescale_run now rate_value actor db)
step now (tick boot_time d settings) db = supervise_run now boot_time d settings db
step now (reap d) db = reap_terminal now d db
step now (boot probe) db = reconcile_on_boot now probe db

-- Operations in sequence, each at its instant.
unfoldable pub run_steps : Db → List (ℕ × Op) → Db
run_steps db [] = db
run_steps db ((now, op) ∷ ops) = run_steps (step now op db) ops
