-- ===== src/Lifecycle/Model.antt =====
-- server/models.py: the rows of one run (runs, worker_leases, run_events, metric_samples) and the
-- constants of server/lifecycle.py.
-- Times and durations are whole microseconds, the resolution of a datetime. Lease ids and holders
-- are numbers. Of an event the kind is kept with the details that the code reads back; a run's log
-- lists the latest row first. Columns that no operation modelled here reads (node, jwt_kid,
-- resolved_sha, …) are left out.
use stoker.Prelude.{ℕ, Bool, true, false, Option, none, List, String}
use stoker.Engines.Apportion.{RateMode, Share}
use stoker.Engines.Sharding.{Engine}

pub data RunState : Type 0 where
  pending preparing provisioning releasing running paused draining : RunState
  completed stopped failed : RunState

pub data LeaseState : Type 0 where
  free claimed ready running lost done : LeaseState

pub data Reason : Type 0 where
  operator_stop duration_complete backpressure_drain provision_failed provision_timeout : Reason
  strict_release_timeout auto_abort_lost auto_abort_auth all_workers_lost orphaned no_events :
      Reason
  completed failed : Reason

-- TERMINAL_STATES
abbrev pub is_terminal : RunState → Bool
is_terminal RunState.completed = true
is_terminal RunState.stopped = true
is_terminal RunState.failed = true
is_terminal _ = false

-- The states in the order of their declaration, to compare them.
abbrev pub rank : RunState → ℕ
rank RunState.pending = 0
rank RunState.preparing = 1
rank RunState.provisioning = 2
rank RunState.releasing = 3
rank RunState.running = 4
rank RunState.paused = 5
rank RunState.draining = 6
rank RunState.completed = 7
rank RunState.stopped = 8
rank RunState.failed = 9

abbrev pub reason_rank : Reason → ℕ
reason_rank Reason.operator_stop = 0
reason_rank Reason.duration_complete = 1
reason_rank Reason.backpressure_drain = 2
reason_rank Reason.provision_failed = 3
reason_rank Reason.provision_timeout = 4
reason_rank Reason.strict_release_timeout = 5
reason_rank Reason.auto_abort_lost = 6
reason_rank Reason.auto_abort_auth = 7
reason_rank Reason.all_workers_lost = 8
reason_rank Reason.orphaned = 9
reason_rank Reason.no_events = 10
reason_rank Reason.completed = 11
reason_rank Reason.failed = 12

-- claimed, ready or running
abbrev pub is_live : LeaseState → Bool
is_live LeaseState.claimed = true
is_live LeaseState.ready = true
is_live LeaseState.running = true
is_live _ = false

abbrev pub is_claimable : LeaseState → Bool
is_claimable LeaseState.free = true
is_claimable LeaseState.lost = true
is_claimable _ = false

abbrev pub is_ready : LeaseState → Bool
is_ready LeaseState.ready = true
is_ready _ = false

abbrev pub is_lost : LeaseState → Bool
is_lost LeaseState.lost = true
is_lost _ = false

abbrev pub is_done : LeaseState → Bool
is_done LeaseState.done = true
is_done _ = false

-- free or claimed
abbrev pub is_pending : LeaseState → Bool
is_pending LeaseState.free = true
is_pending LeaseState.claimed = true
is_pending _ = false

-- claimed or ready
abbrev pub awaits_release : LeaseState → Bool
awaits_release LeaseState.claimed = true
awaits_release LeaseState.ready = true
awaits_release _ = false

pub data EngineImpl : Type 0 where
  firebox python : EngineImpl

pub data Envelope : Type 0 where
  hec stoker_lines : Envelope

-- share_json: the key that the worker reads, and the private keys.
pub record LeaseShare : Type 0 where
  pub share : Option Share
  pub retarget : Bool
  pub assigned_work : Option ℕ
  pub assigned_reason : Option String
  pub engine_impl : Option EngineImpl
  pub envelope : Option Envelope

abbrev pub share_only : Option Share → LeaseShare
share_only s = record {
  share = s;
  retarget = false;
  assigned_work = none;
  assigned_reason = none;
  engine_impl = none;
  envelope = none;
}

pub record Lease : Type 0 where
  pub slot : ℕ
  pub share_json : LeaseShare
  pub lease_id : ℕ
  pub holder : Option ℕ
  pub state : LeaseState
  pub last_heartbeat_at : Option ℕ
  pub effective_t0 : Option ℕ
  pub restarts : ℕ
  pub final_log_tail : List String

-- The counters that finals and heartbeats carry (_LIVE_TOTAL_KEYS); a key may be missing.
pub record Counters : Type 0 where
  pub events_total : Option ℕ
  pub bytes_total : Option ℕ
  pub hec_2xx : Option ℕ
  pub hec_4xx : Option ℕ
  pub hec_5xx : Option ℕ
  pub hec_timeouts : Option ℕ
  pub retries : Option ℕ

pub record Sample : Type 0 where
  pub sample_slot : ℕ
  pub counters : Counters

pub data DriverOp : Type 0 where
  stop_op destroy_op scale_op extend_op : DriverOp

-- What the start-up sweep did to a workload that no live run owns.
pub data StrayAction : Type 0 where
  destroyed destroy_failed : StrayAction

pub data EventKind : Type 0 where
  state : RunState → RunState → Option Reason → EventKind
  claim : ℕ → EventKind
  ready running final lease_lost hec_auth_failed : ℕ → EventKind
  scaled rescaled reapportioned partial_release no_events fleet_destroyed adopted : EventKind
  driver_error : DriverOp → EventKind
  backpressure_detected backpressure_cleared backpressure_step_down : EventKind
  stray_destroyed : StrayAction → EventKind

pub record Event : Type 0 where
  pub ts : ℕ
  pub actor : String
  pub kind : EventKind

-- rotation.scope of the pack
pub data Scope : Type 0 where
  pass window : Scope

-- The keys of spec_snapshot_json that the lifecycle reads.
pub record Snapshot : Type 0 where
  pub engine : Engine
  pub workers : Option ℕ
  pub rate_mode : RateMode
  pub rate_value : Option ℕ
  pub duration : Option ℕ
  pub strict_release : Bool
  pub rotation : Option Scope
  pub backpressure_original_rate : Option ℕ

pub record Run : Type 0 where
  pub state : RunState
  pub degraded : Bool
  pub snapshot : Snapshot
  pub has_driver_ref : Bool
  pub created_at : ℕ
  pub t0 : Option ℕ
  pub ended_at : Option ℕ
  pub end_reason : Option Reason
  pub totals : Counters
  pub paused_at : Option ℕ
  pub paused_s : ℕ

-- A request that the execution driver was sent.
pub data DriverCall : Type 0 where
  stop : ℕ → DriverCall
  destroy : DriverCall
  scale : ℕ → DriverCall
  extend_deadline : ℕ → ℕ → DriverCall

-- Everything kept about one run. leases are in the order of their slots.
pub record Db : Type 0 where
  pub run : Run
  pub leases : List Lease
  pub events : List Event
  pub samples : List Sample
  pub target_red : Bool
  pub calls : List DriverCall

-- How the driver answers the requests of one operation: whether it raises, and whether it can move
-- a deadline at all.
pub record Driver : Type 0 where
  pub stop_ok : Bool
  pub destroy_ok : Bool
  pub scale_ok : Bool
  pub extend_ok : Bool
  pub can_extend : Bool

-- What an operation raises: an HTTP 409, a ValueError, or the driver's own error.
pub data Error : Type 0 where
  not_accepting no_free_lease unknown_slot not_holder : Error
  bad_value wrong_state rotation_pinned driver_failed missing_attribute : Error

pub data Result {ℓ} (A : Type ℓ) : Type ℓ where
  ok : A → Result A
  raised : Error → Result A

abbrev pub second : ℕ
second = 1000000

abbrev pub release_delay : ℕ
release_delay = 2000000

abbrev pub provision_window : ℕ
provision_window = 120000000

abbrev pub lease_lapse : ℕ
lease_lapse = 30000000

abbrev pub boot_grace : ℕ
boot_grace = 60000000

abbrev pub stop_grace : ℕ
stop_grace = 45000000

abbrev pub auto_abort_lost_window : ℕ
auto_abort_lost_window = 300000000

abbrev pub pause_deadline_headroom : ℕ
pause_deadline_headroom = 86400000000
