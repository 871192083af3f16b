-- ===== src/Worker/Agent/Watchdog/Silence.antt =====
-- What a silent round does to the watchdog's variables.
use stoker.Prelude.{
  ℕ, suc, ◌+◌, ◌-◌, ◌≤◌, true, false, ◌≡◌, refl, List, [], ◌∷◌, ltb, leb, arith, inl, inr, if_cases,
}
use stoker.Worker.Agent.{Plan, no_engine_output}
use stoker.Worker.Agent.Loop.{
  Readings, Loop, is_draining, proceed, run_parts, check_deadline, quiet_watchdog, check_engine,
  watchdog_on, fail_output, stalled, watchdog, check_auth, check_dead_man, fence, shape, beat,
  round,
}
use stoker.Worker.Agent.Watchdog.Clock.{is_overdue}
use stoker.Worker.Agent.Watchdog.Calm.{
  IsCalm, IsPlain, Goes, request_drain-drains, proceed-Goes, check_deadline-Goes,
  quiet_watchdog-Goes, check_engine-Goes, check_auth-Goes, check_dead_man-Goes, fence-IsCalm,
  shape-Goes, beat-Goes,
}

fail_output-drains : (l : Loop) → is_draining (fail_output l) ≡ true
fail_output-drains l = request_drain-drains no_engine_output _

-- A silent round: the engine lives and hands over nothing.
abbrev pub IsSilent : ℕ → Readings → Type 0
IsSilent received r = (r.alive ≡ true) × (r.received ≤ received) × (r.received_after ≡ received)

module _ (plan : Plan) (received progress n : ℕ) (r : Readings)
    (watched : watchdog_on plan ≡ true) where
  watchdog-stalled :
      (l : Loop)
      → IsSilent received r
      → is_overdue plan.zero_output progress r ≡ true
      → IsCalm received progress n l
      → watchdog plan r l ≡ stalled plan r l
  unfolding watchdog
  watchdog-stalled l (alive, quiet, after) late (op, same, since, count) =
      let no_more : ltb l.last_received r.received ≡ false = ground arith in
      let due : leb plan.zero_output (r.watch_at - l.last_progress) ≡ true = rw since late in
      rw (watched, alive, no_more, due) refl

  -- Before its time the watchdog leaves everything as it is.
  watchdog-waits :
      (l : Loop)
      → IsSilent received r
      → is_overdue plan.zero_output progress r ≡ false
      → IsCalm received progress n l
      → watchdog plan r l ≡ l
  unfolding watchdog
  watchdog-waits l (alive, quiet, after) early (op, same, since, count) =
      let no_more : ltb l.last_received r.received ≡ false = ground arith in
      let due : leb plan.zero_output (r.watch_at - l.last_progress) ≡ false = rw since early in
      rw (watched, alive, no_more, due) refl

  stalled-Goes :
      (l : Loop)
      → r.received_after ≡ received
      → IsCalm received progress n l
      → Goes received r.restarted_at (suc n) (stalled plan r l)
  unfolding stalled
  stalled-Goes l after (op, same, since, count) =
      let m : Loop = record l { engine_restarts = l.engine_restarts + 1 } in
      if_cases (Goes received r.restarted_at (suc n)) plan.sweeping _ _
        (λ _. inl (fail_output-drains l))
        (λ _.
          if_cases (Goes received r.restarted_at (suc n)) (ltb l.engine_restarts plan.max_restarts)
            _ _
            (λ _.
              if_cases (Goes received r.restarted_at (suc n)) r.restarts _ _
                (λ _. inr (op, after, refl, omega arith)) (λ _. inl (fail_output-drains m)))
            (λ _. inl (fail_output-drains l)))

  stalled-drains :
      (l : Loop)
      → plan.max_restarts ≤ n
      → IsCalm received progress n l
      → is_draining (stalled plan r l) ≡ true
  unfolding stalled
  stalled-drains l over (op, same, since, count) =
      let IsLeft : Loop → Type 0 = λ m. is_draining m ≡ true in
      let more : ltb l.engine_restarts plan.max_restarts ≡ false = ground arith in
      if_cases IsLeft plan.sweeping _ _ (λ _. fail_output-drains l)
        (λ _. rw more (fail_output-drains l))

  -- A silent round that is not left before the watchdog.
  pub watchdog-Goes :
      (l : Loop)
      → IsSilent received r
      → is_overdue plan.zero_output progress r ≡ true
      → IsCalm received progress n l
      → Goes received r.restarted_at (suc n) (watchdog plan r l)
  watchdog-Goes l s late c = rw (watchdog-stalled l s late c) (stalled-Goes l s.2 c)

  pub watchdog_early-Goes :
      (l : Loop)
      → IsSilent received r
      → is_overdue plan.zero_output progress r ≡ false
      → IsCalm received progress n l
      → Goes received progress n (watchdog plan r l)
  watchdog_early-Goes l s early c = rw (watchdog-waits l s early c) (inr c)

  watchdog-drains :
      (l : Loop)
      → IsSilent received r
      → is_overdue plan.zero_output progress r ≡ true
      → plan.max_restarts ≤ n
      → IsCalm received progress n l
      → is_draining (watchdog plan r l) ≡ true
  watchdog-drains l s late over c = rw (watchdog-stalled l s late c) (stalled-drains l over c)

  -- The parts before the watchdog.
  before-Goes :
      (l : Loop)
      → Goes received progress n l
      → Goes received progress n
          (run_parts (check_deadline plan r ∷ quiet_watchdog r ∷ check_engine r ∷ []) l)
  before-Goes l g =
      let l1 = proceed (check_deadline plan r) l in
      let l2 = proceed (quiet_watchdog r) l1 in
      let g1 =
        proceed-Goes received progress n (check_deadline plan r) l
          (check_deadline-Goes received progress n plan r l) g in
      let g2 =
        proceed-Goes received progress n (quiet_watchdog r) l1
          (quiet_watchdog-Goes received progress n r l1) g1 in
      proceed-Goes received progress n (check_engine r) l2
        (check_engine-Goes received progress n r l2) g2

-- The parts after it.
abbrev after_watchdog : Plan → Readings → List (Loop → Loop)
after_watchdog plan r =
    check_auth plan r
    ∷ check_dead_man plan r
    ∷ fence plan r.fence_at
    ∷ shape plan r
    ∷ beat plan r
    ∷ []

after-Goes :
    (plan : Plan) (received progress n : ℕ) (r : Readings) (l : Loop)
    → IsPlain r.first
    → IsPlain r.second
    → Goes received progress n l
    → Goes received progress n (run_parts (after_watchdog plan r) l)
after-Goes plan received progress n r l p q g =
    let l1 = proceed (check_auth plan r) l in
    let l2 = proceed (check_dead_man plan r) l1 in
    let l3 = proceed (fence plan r.fence_at) l2 in
    let l4 = proceed (shape plan r) l3 in
    let g1 =
      proceed-Goes received progress n (check_auth plan r) l
        (check_auth-Goes received progress n plan r l) g in
    let g2 =
      proceed-Goes received progress n (check_dead_man plan r) l1
        (check_dead_man-Goes received progress n plan r l1) g1 in
    let g3 =
      proceed-Goes received progress n (fence plan r.fence_at) l2
        (λ c. inr (fence-IsCalm received progress n plan r.fence_at l2 c)) g2 in
    let g4 =
      proceed-Goes received progress n (shape plan r) l3 (shape-Goes received progress n plan r l3)
        g3 in
    proceed-Goes received progress n (beat plan r) l4 (beat-Goes received progress n plan r l4 p q)
      g4

run_parts-draining :
    (ps : List (Loop → Loop)) (l : Loop)
    → is_draining l ≡ true
    → is_draining (run_parts ps l) ≡ true
run_parts-draining [] l h = h
run_parts-draining (p ∷ ps) l h = run_parts-draining ps (proceed p l) (rw (h, proceed) h)

module _ (plan : Plan) (received progress n : ℕ) (r : Readings)
    (watched : watchdog_on plan ≡ true) where
  abbrev pub RoundIsSilent : Type 0
  RoundIsSilent = IsSilent received r × IsPlain r.first × IsPlain r.second

  -- A silent round does to the variables what its watchdog does.
  pub round-Goes :
      (since count : ℕ) (l : Loop)
      → RoundIsSilent
      → ((m : Loop) → IsCalm received progress n m → Goes received since count (watchdog plan r m))
      → Goes received progress n l
      → Goes received since count (round plan r l)
  unfolding round
  round-Goes since count l (s, p, q) step g =
      let m = run_parts (check_deadline plan r ∷ quiet_watchdog r ∷ check_engine r ∷ []) l in
      after-Goes plan received since count r (proceed (watchdog plan r) m) p q
        (elim (before-Goes plan received progress n r watched l g) [
          | inl d ↦ rw (d, proceed) (inl d)
          | inr c ↦
              if_cases (Goes received since count) (is_draining m) _ _ (λ d. inl d) (λ _. step m c)
        ])

  pub round-drains :
      (l : Loop)
      → RoundIsSilent
      → is_overdue plan.zero_output progress r ≡ true
      → plan.max_restarts ≤ n
      → Goes received progress n l
      → is_draining (round plan r l) ≡ true
  unfolding round
  round-drains l (s, p, q) late over g =
      let m = run_parts (check_deadline plan r ∷ quiet_watchdog r ∷ check_engine r ∷ []) l in
      let IsLeft : Loop → Type 0 = λ k. is_draining k ≡ true in
      run_parts-draining (after_watchdog plan r) (proceed (watchdog plan r) m)
        (elim (before-Goes plan received progress n r watched l g) [
          | inl d ↦ rw (d, proceed) d
          | inr c ↦
              if_cases IsLeft (is_draining m) _ _ (λ d. d)
                (λ _. watchdog-drains plan received progress n r watched m s late over c)
        ])
