-- ===== src/Worker/Agent/Held.antt =====
-- When the output of a worker is held.
use stoker.Prelude.{
  ℕ, Bool, true, false, not, ◌&&◌, ◌||◌, ◌≡◌, refl, Option, none, some, if◌then◌else◌, arith, inl,
  inr, or_else, Option-cases, if_cases, ◌∙◌,
}
use stoker.Worker.Pacing.{Bucket, retarget, or_same}
use stoker.Worker.Control.{
  Reply, Command, continue, release, drain, pause, superseded, retarget as retarget_command, other,
  Offer,
}
use stoker.Worker.Agent.{
  ExitCode, exit_config, exit_no_output, Reason, setup_failure, control_drain, no_engine_output,
  is_metrics, generating, paused, Plan, Agent, request_drain, fail_setup, check_fencing,
  operator_pause, operator_resume, restart_metrics, rewrite_and_restart, retarget_value,
  retarget_share, obey, apply_command, apply_shape, aim, shaped, is_pause, is_drain, gating_eps,
  in_place, accepted,
}

abbrev pub is_held : Agent → Bool
is_held a = a.fencing_paused || a.operator_paused

-- The bucket is paused and the state says so exactly if the worker is fenced or the operator paused it.
pub record IsHeld (a : Agent) : Type 0 where
  pub bucket_paused : a.bucket.paused ≡ is_held a
  pub state_paused : a.state ≡ (if is_held a then paused else generating)

pub check_fencing-IsHeld :
    (standalone should_pause : Bool) (a : Agent)
    → IsHeld a
    → IsHeld (check_fencing standalone should_pause a)
unfolding check_fencing
check_fencing-IsHeld standalone should_pause a h = ground arith

operator_pause-IsHeld : (a : Agent) → IsHeld a → IsHeld (operator_pause a)
unfolding operator_pause
operator_pause-IsHeld a h = ground arith

pub request_drain-IsHeld : (why : Reason) (a : Agent) → IsHeld a → IsHeld (request_drain why a)
unfolding request_drain
request_drain-IsHeld why a h = ground arith

-- An exit code changes nothing of it.
pub exit-IsHeld : (code : ExitCode) (a : Agent) → IsHeld a → IsHeld (record a { exit_code = code })
exit-IsHeld code a h = record { bucket_paused = h.bucket_paused; state_paused = h.state_paused }

fail_setup-IsHeld : (a : Agent) → IsHeld a → IsHeld (fail_setup a)
unfolding fail_setup
fail_setup-IsHeld a h = request_drain-IsHeld setup_failure _ (exit-IsHeld exit_config a h)

restart_metrics-IsHeld :
    (plan : Plan) (b : Bool) (a : Agent) → IsHeld a → IsHeld (restart_metrics plan b a)
unfolding restart_metrics
restart_metrics-IsHeld plan b a h =
    if_cases IsHeld (is_metrics plan.engine && not plan.is_backfill && a.engine_started && not b) _
      _ (λ _. request_drain-IsHeld no_engine_output _ (exit-IsHeld exit_no_output a h)) (λ _. h)

operator_resume-IsHeld :
    (plan : Plan) (now : ℕ) (b : Bool) (a : Agent)
    → IsHeld a
    → IsHeld (operator_resume plan now b a)
unfolding operator_resume
operator_resume-IsHeld plan now b a h =
    if_cases IsHeld (not a.operator_paused) _ _ (λ _. h)
      (λ o.
        if_cases IsHeld a.fencing_paused _ _
          (λ f. record { bucket_paused = ground arith; state_paused = ground arith })
          (λ f.
            restart_metrics-IsHeld plan b _
              (record { bucket_paused = ground arith; state_paused = ground arith })))

or_same-paused : (now rate : ℕ) (b : Bucket) → (or_same b (retarget now rate b)).paused ≡ b.paused
unfolding retarget
or_same-paused now rate b = ground arith

aim-IsHeld : (now rate : ℕ) (a : Agent) → IsHeld a → IsHeld (aim now rate a)
aim-IsHeld now rate a h = record {
  bucket_paused = or_same-paused now rate a.bucket ∙ h.bucket_paused;
  state_paused = h.state_paused;
}

rewrite_and_restart-IsHeld : (b : Bool) (a : Agent) → IsHeld a → IsHeld (rewrite_and_restart b a)
unfolding rewrite_and_restart
rewrite_and_restart-IsHeld true a h = record {
  bucket_paused = h.bucket_paused;
  state_paused = h.state_paused;
}
rewrite_and_restart-IsHeld false a h = fail_setup-IsHeld a h

shaped-IsHeld :
    (plan : Plan) (now rate : ℕ) (a : Agent) → IsHeld a → IsHeld (shaped plan now rate a).1
shaped-IsHeld plan now rate a h = elim (Option-cases plan.shape) [
  | inl e ↦ rw e h
  | inr (c, e) ↦ rw e (record { bucket_paused = h.bucket_paused; state_paused = h.state_paused })
]

retarget_value-IsHeld :
    (plan : Plan) (now : ℕ) (b : Bool) (new : ℕ) (a : Agent)
    → IsHeld a
    → IsHeld (retarget_value plan now b new a)
unfolding retarget_value
retarget_value-IsHeld plan now b new a h =
    let n : IsHeld (record a { rate_value = new }) = record {
      bucket_paused = h.bucket_paused;
      state_paused = h.state_paused;
    } in
    elim (Option-cases (gating_eps plan new)) [
      | inl e ↦ rw (e, retarget_value) (rewrite_and_restart-IsHeld b _ n)
      | inr (rate, e) ↦
          let d = aim-IsHeld now (shaped plan now rate _).0 _ (shaped-IsHeld plan now rate _ n) in
          rw (e, retarget_value)
            (if_cases IsHeld (in_place new a.rate_value) _ _ (λ _. d)
              (λ _. rewrite_and_restart-IsHeld b _ d))
    ]

retarget_share-IsHeld :
    (plan : Plan) (now : ℕ) (b : Bool) (offer : Option Offer) (a : Agent)
    → IsHeld a
    → IsHeld (retarget_share plan now b offer a)
unfolding retarget_share
retarget_share-IsHeld plan now b offer a h = elim (Option-cases (accepted plan offer)) [
  | inl e ↦ rw (e, retarget_share) h
  | inr (v, e) ↦ rw (e, retarget_share) (retarget_value-IsHeld plan now b v a h)
]

obey_command-IsHeld :
    (plan : Plan) (now : ℕ) (b : Bool) (r : Reply) (c : Option Command) (a : Agent)
    → r.command ≡ c
    → IsHeld a
    → IsHeld (obey plan now b r a)
unfolding obey
obey_command-IsHeld plan now b r none a e h = rw (e, obey) h
obey_command-IsHeld plan now b r (some drain) a e h =
    rw (e, obey) (request_drain-IsHeld control_drain a h)
obey_command-IsHeld plan now b r (some retarget_command) a e h =
    rw (e, obey) (retarget_share-IsHeld plan now b r.offer a h)
obey_command-IsHeld plan now b r (some continue) a e h = rw (e, obey) h
obey_command-IsHeld plan now b r (some release) a e h = rw (e, obey) h
obey_command-IsHeld plan now b r (some pause) a e h = rw (e, obey) h
obey_command-IsHeld plan now b r (some superseded) a e h = rw (e, obey) h
obey_command-IsHeld plan now b r (some other) a e h = rw (e, obey) h

obey-IsHeld :
    (plan : Plan) (now : ℕ) (b : Bool) (r : Reply) (a : Agent)
    → IsHeld a
    → IsHeld (obey plan now b r a)
obey-IsHeld plan now b r a h = obey_command-IsHeld plan now b r r.command a refl h

pub apply_command-IsHeld :
    (plan : Plan) (now : ℕ) (restarts rewrites : Bool) (r : Reply) (a : Agent)
    → IsHeld a
    → IsHeld (apply_command plan now restarts rewrites r a)
unfolding apply_command
apply_command-IsHeld plan now restarts rewrites r a h =
    let b : IsHeld (record a { paused_s = or_else r.paused_s a.paused_s }) = record {
      bucket_paused = h.bucket_paused;
      state_paused = h.state_paused;
    } in
    if_cases IsHeld (is_pause r.command) _ _ (λ _. operator_pause-IsHeld _ b)
      (λ _.
        if_cases IsHeld (not (is_drain r.command) && a.operator_paused) _ _
          (λ _. obey-IsHeld plan now rewrites r _ (operator_resume-IsHeld plan now restarts _ b))
          (λ _. obey-IsHeld plan now rewrites r _ b))

pub apply_shape-IsHeld :
    (plan : Plan) (now : ℕ) (a : Agent) → IsHeld a → IsHeld (apply_shape plan now a)
unfolding apply_shape
apply_shape-IsHeld plan now a h = elim (Option-cases plan.shape) [
  | inl e ↦ rw (e, apply_shape) h
  | inr (curve, e) ↦ elim (Option-cases a.shape_share) [
    | inl f ↦ rw (e, f, apply_shape) h
    | inr (share, f) ↦
        rw (e, f, apply_shape)
          (if_cases IsHeld _ _ _ (λ _. aim-IsHeld now (curve share now) a h) (λ _. h))
  ]
]
