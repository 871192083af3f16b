-- ===== src/Worker/Agent.antt =====
-- worker/stoker_agent/agent.py: the state of an Agent once its engine is built, and what fencing, the
-- commands of the control plane and the release do to it. Instants and durations are whole microseconds
-- and rates millionths, as in Pacing. Whether the engine's restart and the rewriting of its conf succeed
-- is an argument; an exception of theirs that run() catches as a setup failure ends the loop, and is
-- modelled by what its handler does. Telemetry and logging are left out.
pub mod Loop
pub mod Rounds
pub mod Held
pub mod Holding
pub mod Resume
pub mod Watchdog
use stoker.Prelude.{
  ℕ, zero, suc, ◌+◌, ◌-◌, ◌*◌, ◌/◌, Bool, true, false, not, ◌&&◌, ◌||◌, Option, none, some, ltb,
  leb, ◌==◌, if◌then◌else◌, or_else,
}
use stoker.Engines.Apportion.{RateMode, eps, per_day_gb, count_interval}
use stoker.Worker.Pacing.{
  Bucket, or_same, anchor_at as anchor_bucket, pause as pause_bucket, resume as resume_bucket,
  retarget as retarget_bucket,
}
use stoker.Worker.Control.{
  Command, continue, release, drain, pause, superseded, retarget, other, Offer, Reply,
}

pub data AgentState : Type 0 where
  ready generating paused : AgentState

pub data ExitCode : Type 0 where
  exit_ok exit_config exit_auth_standalone exit_deadman exit_no_output : ExitCode

pub data Reason : Type 0 where
  duration_complete engine_exit no_engine_output hec_auth_failed dead_man taken_over control_drain :
      Reason
  setup_failure : Reason

pub data Engine : Type 0 where
  eventgen rawreplay metrics : Engine

-- What stays as it is during a run, of the config and the slice. shape is the rate method of the curve,
-- from a share and an instant; bytes_per_event is 0 where the bundle declares no estimate.
pub record Plan : Type 0 where
  pub standalone : Bool
  pub engine : Engine
  pub rate_mode : RateMode
  pub is_backfill : Bool
  pub sweeping : Bool
  pub shape : Option (ℕ → ℕ → ℕ)
  pub bytes_per_event : ℕ
  pub zero_output : ℕ
  pub max_restarts : ℕ
  pub interval : ℕ
  pub deadline : Option ℕ

-- rate_value is the slice's, 0 for None.
pub record Agent : Type 0 where
  pub bucket : Bucket
  pub state : AgentState
  pub fencing_paused : Bool
  pub operator_paused : Bool
  pub paused_s : ℕ
  pub exit_code : ExitCode
  pub drain_reason : Option Reason
  pub engine_started : Bool
  pub rate_value : ℕ
  pub shape_share : Option ℕ

-- The first reason stays.
unfoldable pub request_drain : Reason → Agent → Agent
request_drain why a = elim a.drain_reason [
  | none ↦ record a { drain_reason = some why }
  | some first ↦ a
]

-- What the handler of run() does on an EngineError or a ConfRewriteError.
unfoldable pub fail_setup : Agent → Agent
unfolding request_drain
fail_setup a = request_drain setup_failure (record a { exit_code = exit_config })

-- Without an ack for too long, hold the output; with one, let it go unless the operator holds it.
unfoldable pub check_fencing : Bool → Bool → Agent → Agent
unfolding pause_bucket resume_bucket
check_fencing standalone should_pause a =
    if standalone
    then a
    else if should_pause
    then (if a.fencing_paused
        then a
        else record a { bucket = pause_bucket a.bucket; fencing_paused = true; state = paused })
    else if not a.fencing_paused
    then a
    else if a.operator_paused
    then record a { fencing_paused = false }
    else record a { fencing_paused = false; bucket = resume_bucket a.bucket; state = generating }

unfoldable pub operator_pause : Agent → Agent
unfolding pause_bucket
operator_pause a =
    if a.operator_paused
    then a
    else record a { bucket = pause_bucket a.bucket; operator_paused = true; state = paused }

abbrev pub is_metrics : Engine → Bool
is_metrics metrics = true
is_metrics _ = false

-- A live metrics engine is restarted onto the current grid.
unfoldable pub restart_metrics : Plan → Bool → Agent → Agent
unfolding request_drain
restart_metrics plan restarts a =
    if is_metrics plan.engine && not plan.is_backfill && a.engine_started && not restarts
    then request_drain no_engine_output (record a { exit_code = exit_no_output })
    else a

unfoldable pub operator_resume : Plan → ℕ → Bool → Agent → Agent
unfolding anchor_bucket resume_bucket
operator_resume plan now restarts a =
    if not a.operator_paused
    then a
    else if a.fencing_paused
    then record a { operator_paused = false }
    else restart_metrics plan restarts (record a {
      operator_paused = false;
      bucket = resume_bucket (anchor_bucket now a.bucket);
      state = generating;
    })

-- _gating_eps, with DEFAULT_BYTES_PER_EVENT; rounded down to a millionth of an event.
unfoldable pub gating_eps : Plan → ℕ → Option ℕ
gating_eps plan value = elim plan.rate_mode [
  | eps ↦ some value
  | per_day_gb ↦
      let bytes : ℕ = if plan.bytes_per_event == 0 then 256 else plan.bytes_per_event in
      some (value * 1000000000 / (bytes * 86400))
  | count_interval ↦ none
]

abbrev pub distance : ℕ → ℕ → ℕ
distance m n = (m - n) + (n - m)

-- abs(ratio - 1.0) <= RETARGET_IN_PLACE_BAND; the ratio to 0 is infinite.
unfoldable pub in_place : ℕ → ℕ → Bool
in_place new old = ltb 0 old && leb (100 * distance new old) (15 * old)

unfoldable pub rewrite_and_restart : Bool → Agent → Agent
unfolding fail_setup
rewrite_and_restart succeeds a =
    if succeeds then record a { engine_started = true } else fail_setup a

-- The rate that the bucket gets: that of the curve, where there is one, and the share it is scaled from.
abbrev pub shaped : Plan → ℕ → ℕ → Agent → ℕ × Agent
shaped plan now rate a = elim plan.shape [
  | none ↦ (rate, a)
  | some curve ↦ (curve rate now, record a { shape_share = some rate })
]

-- The bucket refuses a rate of 0, which a share above 0 gives only by the rounding of this model.
abbrev pub aim : ℕ → ℕ → Agent → Agent
aim now rate a = record a { bucket = or_same a.bucket (retarget_bucket now rate a.bucket) }

-- _retarget from the new value on.
unfoldable pub retarget_value : Plan → ℕ → Bool → ℕ → Agent → Agent
retarget_value plan now succeeds new a =
    let b : Agent = record a { rate_value = new } in
    elim (gating_eps plan new) [
      | none ↦ rewrite_and_restart succeeds b
      | some rate ↦
          let (target, c) = shaped plan now rate b in
          let d = aim now target c in
          if in_place new a.rate_value then d else rewrite_and_restart succeeds d
    ]

abbrev pub same_mode : RateMode → RateMode → Bool
same_mode eps eps = true
same_mode per_day_gb per_day_gb = true
same_mode count_interval count_interval = true
same_mode _ _ = false

abbrev pub accepted_value : Plan → Offer → Option ℕ
accepted_value plan o = elim o.mode [
  | none ↦ none
  | some mode ↦ elim o.value [
    | none ↦ none
    | some v ↦ if same_mode mode plan.rate_mode && ltb 0 v then some v else none
  ]
]

abbrev pub accepted : Plan → Option Offer → Option ℕ
accepted plan none = none
accepted plan (some o) = accepted_value plan o

-- _retarget; a share that is not accepted changes nothing.
unfoldable pub retarget_share : Plan → ℕ → Bool → Option Offer → Agent → Agent
retarget_share plan now succeeds offer a = elim (accepted plan offer) [
  | none ↦ a
  | some v ↦ retarget_value plan now succeeds v a
]

abbrev pub is_drain : Option Command → Bool
is_drain (some drain) = true
is_drain _ = false

-- The commands other than pause, after the resume that they imply.
unfoldable pub obey : Plan → ℕ → Bool → Reply → Agent → Agent
obey plan now succeeds r a = elim r.command [
  | none ↦ a
  | some c ↦ elim c [
    | drain ↦ request_drain control_drain a
    | retarget ↦ retarget_share plan now succeeds r.offer a
    | continue ↦ a
    | release ↦ a
    | pause ↦ a
    | superseded ↦ a
    | other ↦ a
  ]
]

abbrev pub is_pause : Option Command → Bool
is_pause (some pause) = true
is_pause _ = false

-- _apply_command; restarts says whether the metrics engine restarts, rewrites whether a conf rewrite does.
unfoldable pub apply_command : Plan → ℕ → Bool → Bool → Reply → Agent → Agent
apply_command plan now restarts rewrites r a =
    let b : Agent = record a { paused_s = or_else r.paused_s a.paused_s } in
    if is_pause r.command
    then operator_pause b
    else if not (is_drain r.command) && b.operator_paused
    then obey plan now rewrites r (operator_resume plan now restarts b)
    else obey plan now rewrites r b

-- What run() does at T0, where an engine that was not warmed before is started.
unfoldable pub start_generating : ℕ → Bool → Agent → Agent
unfolding anchor_bucket resume_bucket fail_setup
start_generating anchor starts a =
    let b : Agent = record a { bucket = resume_bucket (anchor_bucket anchor a.bucket) } in
    if a.engine_started || starts
    then record b { engine_started = true; state = generating }
    else fail_setup b

-- _apply_shape: re-aim for a change of more than half a percent.
unfoldable pub apply_shape : Plan → ℕ → Agent → Agent
apply_shape plan now a = elim plan.shape [
  | none ↦ a
  | some curve ↦ elim a.shape_share [
    | none ↦ a
    | some share ↦
        let want = curve share now in
        if ltb (5 * a.bucket.rate) (1000 * distance want a.bucket.rate) then aim now want a else a
  ]
]
