-- ===== src/Worker/Agent/Resume.antt =====
-- The resume of a run that the operator has paused.
use stoker.Prelude.{ℕ, Bool, true, false, not, ◌&&◌, ◌||◌, ◌≡◌, refl, arith, if_cases, or_else}
use stoker.Prelude.Int.{pos, ◌-ℤ◌}
use stoker.Worker.Pacing.{
  Bucket, owed, backlog, released_quota, try_take, cap_backlog, take_owed, anchor_at, resume, lag,
}
use stoker.Worker.Control.{Reply}
use stoker.Worker.Agent.{
  Plan, Agent, request_drain, restart_metrics, operator_resume, apply_command, is_pause, is_drain,
}
use stoker.Worker.Agent.Watchdog.Calm.{is_plain, plain-not_pause, plain-not_drain, obey-plain}

-- The bucket lets nothing pass at this instant: nothing is owed, and nothing counts as released.
pub record IsFresh (now : ℕ) (b : Bucket) : Type 0 where
  pub running : b.paused ≡ false
  pub nothing_owed : owed now b ≡ pos 0
  pub nothing_released : b.released ≡ 0

-- The bucket is not paused, refuses an event at this instant, and reports no lag.
abbrev pub ReleasesAfresh : ℕ → Bucket → Type 0
ReleasesAfresh now b = (b.paused ≡ false) × ((try_take now b).0 ≡ false) × ((lag now b).0 ≡ 0)

resumed-IsFresh : (now : ℕ) (b : Bucket) → IsFresh now (resume (anchor_at now b))
unfolding resume anchor_at owed ◌-ℤ◌
resumed-IsFresh now b = record {
  running = refl;
  nothing_owed = ground arith;
  nothing_released = refl;
}

no_backlog : (now : ℕ) (b : Bucket) → IsFresh now b → backlog now b ≡ pos 0
unfolding ◌-ℤ◌
no_backlog now b f =
    let e : released_quota b ≡ 0 = rw f.nothing_released refl in rw (f.nothing_owed, e) refl

cap_backlog-fresh : (now : ℕ) (b : Bucket) → IsFresh now b → cap_backlog now b ≡ b
unfolding cap_backlog
cap_backlog-fresh now b f = rw (no_backlog now b f) (ground arith)

take_owed-fresh : (now : ℕ) (b : Bucket) → IsFresh now b → take_owed now b ≡ (false, b)
unfolding take_owed
take_owed-fresh now b f =
    let e : released_quota b ≡ 0 = rw f.nothing_released refl in rw (e, f.nothing_owed) refl

fresh-refuses : (now : ℕ) (b : Bucket) → IsFresh now b → (try_take now b).0 ≡ false
unfolding try_take
fresh-refuses now b f =
    if_cases (λ (p : Bool × Bucket). p.0 ≡ false) (b.closed || b.paused) _ _ (λ _. refl)
      (λ _. rw (cap_backlog-fresh now b f, take_owed-fresh now b f) refl)

lag-fresh : (now : ℕ) (b : Bucket) → IsFresh now b → (lag now b).0 ≡ 0
unfolding lag
lag-fresh now b f = rw (cap_backlog-fresh now b f, no_backlog now b f) refl

restart_metrics-bucket :
    (plan : Plan) (b : Bool) (a : Agent) → (restart_metrics plan b a).bucket ≡ a.bucket
unfolding restart_metrics request_drain
restart_metrics-bucket plan b a = ground arith

abbrev HasBucket : Bucket → Agent → Type 0
HasBucket b a = a.bucket ≡ b

operator_resume-bucket :
    (plan : Plan) (now : ℕ) (b : Bool) (a : Agent)
    → a.operator_paused ≡ true
    → a.fencing_paused ≡ false
    → (operator_resume plan now b a).bucket ≡ resume (anchor_at now a.bucket)
unfolding operator_resume
operator_resume-bucket plan now b a o f =
    if_cases (HasBucket (resume (anchor_at now a.bucket))) (not a.operator_paused) _ _
      (λ e. ground arith)
      (λ _.
        if_cases (HasBucket (resume (anchor_at now a.bucket))) a.fencing_paused _ _
          (λ e. ground arith) (λ _. restart_metrics-bucket plan b _))

apply_plain-bucket :
    (plan : Plan) (now : ℕ) (restarts rewrites : Bool) (r : Reply) (a : Agent)
    → is_plain r.command ≡ true
    → a.operator_paused ≡ true
    → a.fencing_paused ≡ false
    → (apply_command plan now restarts rewrites r a).bucket ≡ resume (anchor_at now a.bucket)
unfolding apply_command
apply_plain-bucket plan now restarts rewrites r a p o f =
    let b : Agent = record a { paused_s = or_else r.paused_s a.paused_s } in
    if_cases (HasBucket (resume (anchor_at now a.bucket))) (is_pause r.command) _ _
      (λ e. ground (arith, plain-not_pause r.command p))
      (λ _.
        if_cases (HasBucket (resume (anchor_at now a.bucket)))
          (not (is_drain r.command) && a.operator_paused) _ _
          (λ _.
            rw
              (obey-plain plan now rewrites r r.command (operator_resume plan now restarts b) refl
                p)
              (operator_resume-bucket plan now restarts b o f))
          (λ e. ground (arith, plain-not_drain r.command p)))

-- The resume that a command to go on implies: a worker that the operator has paused, and that is not
-- fenced, releases again, and owes nothing of the time in which it was held. At that instant it refuses
-- every event and reports no lag, whatever it owed before, and whether or not a metrics engine restarts.
pub resume-no_burst :
    (plan : Plan) (now : ℕ) (restarts rewrites : Bool) (r : Reply) (a : Agent)
    → is_plain r.command ≡ true
    → a.operator_paused ≡ true
    → a.fencing_paused ≡ false
    → ReleasesAfresh now (apply_command plan now restarts rewrites r a).bucket
unfolding apply_command
resume-no_burst plan now restarts rewrites r a p o f =
    let e = apply_plain-bucket plan now restarts rewrites r a p o f in
    let fresh = resumed-IsFresh now a.bucket in
    rw e (fresh.running, fresh-refuses now _ fresh, lag-fresh now _ fresh)
