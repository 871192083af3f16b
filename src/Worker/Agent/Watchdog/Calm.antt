-- ===== src/Worker/Agent/Watchdog/Calm.antt =====
-- What the parts of a round other than the watchdog do to its variables.
use stoker.Prelude.{
  ℕ, ◌≤◌, Bool, true, false, not, ◌&&◌, ◌≡◌, refl, ◌∙◌, ◌⊎◌, Option, none, some, List, [], ◌∷◌, leb,
  arith, inl, inr, if_cases, is_some, or_else, Option-cases,
}
use stoker.Worker.Control.{
  Outcome, disconnected, failed, returned, Reply, Command, continue, release, Beat, missed,
  taken_over, acked, should_pause, heartbeat, take_reply, Client, is_superseded, deadman_expired,
}
use stoker.Worker.Agent.{
  Plan, Agent, is_pause, is_drain, Reason, request_drain, check_fencing, apply_command, apply_shape,
  obey,
}
use stoker.Worker.Agent.Loop.{
  Readings, Loop, is_draining, proceed, is_due, check_deadline, quiet_watchdog, check_engine,
  check_auth, check_dead_man, fence, shape, after_beat, beat,
}

-- The operator has not paused the run, and the watchdog's three variables are these.
abbrev pub IsCalm : ℕ → ℕ → ℕ → Loop → Type 0
IsCalm received progress restarts l =
    (l.agent.operator_paused ≡ false)
    × (l.last_received ≡ received)
    × (l.last_progress ≡ progress)
    × (l.engine_restarts ≡ restarts)

-- A reply that brings no command but to go on.
abbrev pub is_plain : Option Command → Bool
is_plain none = true
is_plain (some continue) = true
is_plain (some release) = true
is_plain (some c) = false

abbrev pub IsPlain : Outcome Reply → Type 0
IsPlain (returned r) = is_plain r.command ≡ true
IsPlain failed = Unit {0}
IsPlain disconnected = Unit {0}

-- Rounds in which the engine lives and hands over nothing, also to a restart where one is made, and
-- whose heartbeats bring no command. Nothing is said of when they come.
abbrev pub AreSilent : ℕ → List Readings → Type 0
AreSilent received [] = Unit {0}
AreSilent received (r ∷ rs) =
    (r.alive ≡ true)
    × (r.received ≤ received)
    × (r.received_after ≡ received)
    × IsPlain r.first
    × IsPlain r.second
    × AreSilent received rs

request_drain-operator :
    (why : Reason) (a : Agent) → (request_drain why a).operator_paused ≡ a.operator_paused
unfolding request_drain
request_drain-operator why a = ground arith

pub request_drain-drains :
    (why : Reason) (a : Agent) → is_some (request_drain why a).drain_reason ≡ true
unfolding request_drain
request_drain-drains why a = ground arith

check_fencing-operator :
    (b c : Bool) (a : Agent) → (check_fencing b c a).operator_paused ≡ a.operator_paused
unfolding check_fencing
check_fencing-operator b c a = ground arith

apply_shape-operator :
    (plan : Plan) (now : ℕ) (a : Agent)
    → (apply_shape plan now a).operator_paused ≡ a.operator_paused
unfolding apply_shape
apply_shape-operator plan now a = elim (Option-cases plan.shape) [
  | inl e ↦ rw (e, apply_shape) refl
  | inr (curve, e) ↦ elim (Option-cases a.shape_share) [
    | inl f ↦ rw (e, f, apply_shape) refl
    | inr (share, f) ↦
        rw (e, f, apply_shape)
          (if_cases (λ (c : Agent). c.operator_paused ≡ a.operator_paused) _ _ _ (λ _. refl)
            (λ _. refl))
  ]
]

pub obey-plain :
    (plan : Plan) (now : ℕ) (b : Bool) (r : Reply) (c : Option Command) (a : Agent)
    → r.command ≡ c
    → is_plain c ≡ true
    → obey plan now b r a ≡ a
unfolding obey
obey-plain plan now b r none a e h = rw (e, obey) refl
obey-plain plan now b r (some continue) a e h = rw (e, obey) refl
obey-plain plan now b r (some release) a e h = rw (e, obey) refl
obey-plain plan now b r (some c) a e h = cc

abbrev IsUnpaused : Agent → Type 0
IsUnpaused a = a.operator_paused ≡ false

pub plain-not_pause : (c : Option Command) → is_plain c ≡ true → is_pause c ≡ false
plain-not_pause none h = refl
plain-not_pause (some continue) h = refl
plain-not_pause (some release) h = refl
plain-not_pause (some c) h = cc

pub plain-not_drain : (c : Option Command) → is_plain c ≡ true → is_drain c ≡ false
plain-not_drain none h = refl
plain-not_drain (some continue) h = refl
plain-not_drain (some release) h = refl
plain-not_drain (some c) h = cc

abbrev IsPlainBeat : Beat → Type 0
IsPlainBeat (acked r) = is_plain r.command ≡ true
IsPlainBeat missed = Unit {0}
IsPlainBeat taken_over = Unit {0}

take_reply-IsPlain :
    (now : ℕ) (r : Reply) (c : Client)
    → is_plain r.command ≡ true
    → IsPlainBeat (take_reply now r c).0
unfolding take_reply
take_reply-IsPlain now r c h =
    if_cases (λ (p : Beat × Client). IsPlainBeat p.0) (is_superseded r.command) _ _ (λ _. tt)
      (λ _. h)

heartbeat-IsPlain :
    (first second : Outcome Reply) (now : ℕ) (c : Client)
    → IsPlain first
    → IsPlain second
    → IsPlainBeat (heartbeat first second now c).0
unfolding heartbeat
heartbeat-IsPlain (returned r) second now c p q = take_reply-IsPlain now r c p
heartbeat-IsPlain failed second now c p q = tt
heartbeat-IsPlain disconnected (returned r) now c p q = take_reply-IsPlain now r c q
heartbeat-IsPlain disconnected failed now c p q = tt
heartbeat-IsPlain disconnected disconnected now c p q = tt

apply_command-operator :
    (plan : Plan) (now : ℕ) (restarts rewrites : Bool) (r : Reply) (a : Agent)
    → is_plain r.command ≡ true
    → a.operator_paused ≡ false
    → (apply_command plan now restarts rewrites r a).operator_paused ≡ false
unfolding apply_command
apply_command-operator plan now restarts rewrites r a h o =
    let b : Agent = record a { paused_s = or_else r.paused_s a.paused_s } in
    let done : (obey plan now rewrites r b).operator_paused ≡ false =
      rw (obey-plain plan now rewrites r r.command b refl h) o in
    if_cases IsUnpaused (is_pause r.command) _ _ (λ e. ground (arith, plain-not_pause r.command h))
      (λ _.
        if_cases IsUnpaused (not (is_drain r.command) && a.operator_paused) _ _ (λ e. ground arith)
          (λ _. done))

-- The loop is left, or the watchdog's variables are these.
abbrev pub Goes : ℕ → ℕ → ℕ → Loop → Type 0
Goes received progress restarts l = (is_draining l ≡ true) ⊎ IsCalm received progress restarts l

module _ (received progress restarts : ℕ) where
  pub proceed-Goes :
      (part : Loop → Loop) (l : Loop)
      → (IsCalm received progress restarts l → Goes received progress restarts (part l))
      → Goes received progress restarts l
      → Goes received progress restarts (proceed part l)
  proceed-Goes part l k (inl d) = rw d (inl d)
  proceed-Goes part l k (inr c) =
      if_cases (Goes received progress restarts) (is_draining l) _ _ (λ _. inr c) (λ _. k c)

  pub leave-Goes :
      (why : Reason) (l : Loop) (a : Agent)
      → Goes received progress restarts (record l { agent = request_drain why a })
  leave-Goes why l a = inl (request_drain-drains why a)

  pub check_deadline-Goes :
      (plan : Plan) (r : Readings) (l : Loop)
      → IsCalm received progress restarts l
      → Goes received progress restarts (check_deadline plan r l)
  unfolding check_deadline
  check_deadline-Goes plan r l c =
      if_cases (Goes received progress restarts) (is_due plan.deadline r.wall l.agent) _ _
        (λ _. leave-Goes _ l l.agent) (λ _. inr c)

  pub quiet_watchdog-Goes :
      (r : Readings) (l : Loop)
      → IsCalm received progress restarts l
      → Goes received progress restarts (quiet_watchdog r l)
  unfolding quiet_watchdog
  quiet_watchdog-Goes r l c =
      if_cases (Goes received progress restarts) l.agent.operator_paused _ _ (λ e. ground arith)
        (λ _. inr c)

  pub check_engine-Goes :
      (r : Readings) (l : Loop)
      → IsCalm received progress restarts l
      → Goes received progress restarts (check_engine r l)
  unfolding check_engine
  check_engine-Goes r l c =
      if_cases (Goes received progress restarts) (l.agent.engine_started && not r.alive) _ _
        (λ _. leave-Goes _ l l.agent) (λ _. inr c)

  pub check_auth-Goes :
      (plan : Plan) (r : Readings) (l : Loop)
      → IsCalm received progress restarts l
      → Goes received progress restarts (check_auth plan r l)
  unfolding check_auth
  check_auth-Goes plan r l c =
      if_cases (Goes received progress restarts) r.auth_failed _ _ (λ _. leave-Goes _ l _)
        (λ _. inr c)

  pub check_dead_man-Goes :
      (plan : Plan) (r : Readings) (l : Loop)
      → IsCalm received progress restarts l
      → Goes received progress restarts (check_dead_man plan r l)
  unfolding check_dead_man
  check_dead_man-Goes plan r l c =
      if_cases (Goes received progress restarts)
        (not plan.standalone && deadman_expired r.deadman_at l.client) _ _ (λ _. leave-Goes _ l _)
        (λ _. inr c)

  pub fence-IsCalm :
      (plan : Plan) (now : ℕ) (l : Loop)
      → IsCalm received progress restarts l
      → IsCalm received progress restarts (fence plan now l)
  unfolding fence
  fence-IsCalm plan now l c = (
    check_fencing-operator plan.standalone (should_pause now l.client) l.agent ∙ c.0,
    c.1,
    c.2,
    c.3,
  )

  pub shape-Goes :
      (plan : Plan) (r : Readings) (l : Loop)
      → IsCalm received progress restarts l
      → Goes received progress restarts (shape plan r l)
  unfolding shape
  shape-Goes plan r l c = inr (apply_shape-operator plan r.shape_at l.agent ∙ c.0, c.1, c.2, c.3)

  after_beat-Goes :
      (plan : Plan) (r : Readings) (b : Beat) (l : Loop)
      → IsPlainBeat b
      → IsCalm received progress restarts l
      → Goes received progress restarts (after_beat plan r b l)
  unfolding after_beat
  after_beat-Goes plan r missed l p c = inr c
  after_beat-Goes plan r taken_over l p c = leave-Goes _ l l.agent
  after_beat-Goes plan r (acked reply) l p c =
      let d = fence-IsCalm plan r.fence_after l c in
      inr (
        apply_command-operator plan r.apply_at r.metrics_restarts r.rewrites reply _ p d.0,
        d.1,
        d.2,
        d.3,
      )

  pub beat-Goes :
      (plan : Plan) (r : Readings) (l : Loop)
      → IsPlain r.first
      → IsPlain r.second
      → IsCalm received progress restarts l
      → Goes received progress restarts (beat plan r l)
  unfolding beat
  beat-Goes plan r l p q c =
      if_cases (Goes received progress restarts) (leb l.next_hb r.beat_at) _ _
        (λ _.
          after_beat-Goes plan r (heartbeat r.first r.second r.ack_at l.client).0 _
            (heartbeat-IsPlain r.first r.second r.ack_at l.client p q) c)
        (λ _. inr c)
