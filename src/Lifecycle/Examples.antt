-- ===== src/Lifecycle/Examples.antt =====
-- The operations on concrete runs: the data, and the theorems at it in the child modules.
mod Runs
mod Ends
mod Rates
mod Sweeps
use stoker.Prelude.{ℕ, ◌+◌, Bool, true, false, Option, none, some, List, [], ◌∷◌, String}
use stoker.Engines.Apportion.{RateMode, eps, Share}
use stoker.Engines.Sharding.{Engine}
use stoker.Lifecycle.Model.{
  RunState, LeaseState, LeaseShare, share_only, Lease, Counters, EventKind, Event, Snapshot, Run,
  Db, Driver,
}
use stoker.Lifecycle.Backpressure.{Action, Settings}
use stoker.Lifecycle.Heartbeat.{Payload}

abbrev pub eps_share : ℕ → Option Share
eps_share n = some (record { mode = eps; value = n })

-- The lease of a slot, with lease id 100 + slot.
abbrev pub lease : ℕ → LeaseState → Lease
lease slot state = record {
  slot = slot;
  share_json = share_only (eps_share 50);
  lease_id = 100 + slot;
  holder = some slot;
  state = state;
  last_heartbeat_at = some 5000000;
  effective_t0 = none;
  restarts = 0;
  final_log_tail = [];
}

abbrev pub no_counters : Counters
no_counters = record {
  events_total = none;
  bytes_total = none;
  hec_2xx = none;
  hec_4xx = none;
  hec_5xx = none;
  hec_timeouts = none;
  retries = none;
}

abbrev pub delivered : ℕ → Counters
delivered n = record no_counters { events_total = some n }

abbrev pub snapshot : Snapshot
snapshot = record {
  engine = Engine.eventgen;
  workers = some 2;
  rate_mode = eps;
  rate_value = some 100;
  duration = some 60000000;
  strict_release = false;
  rotation = none;
  backpressure_original_rate = none;
}

abbrev pub run_in : RunState → Option ℕ → Run
run_in state t0 = record {
  state = state;
  degraded = false;
  snapshot = snapshot;
  has_driver_ref = true;
  created_at = 0;
  t0 = t0;
  ended_at = none;
  end_reason = none;
  totals = no_counters;
  paused_at = none;
  paused_s = 0;
}

-- A run in a state, with two leases.
abbrev pub db_with : RunState → Option ℕ → LeaseState → LeaseState → Db
db_with state t0 first second = record {
  run = run_in state t0;
  leases = lease 0 first ∷ lease 1 second ∷ [];
  events = [];
  samples = [];
  target_red = false;
  calls = [];
}

abbrev pub driver : Driver
driver = record {
  stop_ok = true;
  destroy_ok = true;
  scale_ok = true;
  extend_ok = true;
  can_extend = true;
}

abbrev pub settings : Settings
settings = record {
  enabled = true;
  min_failed_fraction = record { num = 1; den = 2 };
  sustained = 60000000;
  action = Action.step_down;
  step_factor = record { num = 1; den = 2 };
  min_rate_fraction = record { num = 1; den = 4 };
}

abbrev pub payload : Payload
payload = record {
  counters = delivered 10;
  protocol_version = 1;
  auth_failed = false;
  assigned_work = none;
  assigned_reason = none;
  engine_impl = none;
  envelope = none;
  jwt_near_expiry = false;
}
