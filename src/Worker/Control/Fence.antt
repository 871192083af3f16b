-- ===== src/Worker/Control/Fence.antt =====
-- Fencing: when a worker may not generate, and when it gives up.
use stoker.Prelude.{
  ℕ, ◌-◌, ◌≤◌, Bool, true, false, ◌&&◌, ◌≡◌, refl, sym, ap, ◌∙◌, Option, none, some, List, [], ◌∷◌,
  ltb, if◌then◌else◌, arith, Bool-cases, inl, inr, all, not,
}
use stoker.Worker.Control.{
  Outcome, disconnected, failed, returned, Reply, Client, new_client, heartbeat, take_reply,
  should_pause, deadman_expired, fence_pause, is_superseded, roll,
}

-- A heartbeat: its two requests, and the clock after them.
pub record Exchange : Type 0 where
  pub first : Outcome Reply
  pub second : Outcome Reply
  pub now : ℕ

unfoldable pub run_beats : List Exchange → Client → Client
unfolding heartbeat
run_beats [] c = c
run_beats (x ∷ xs) c = run_beats xs (heartbeat x.first x.second x.now c).1

abbrev is_reply : Outcome Reply → Bool
is_reply (returned r) = not (is_superseded r.command)
is_reply failed = false
is_reply disconnected = false

-- Whether the control plane answers, at the first request or after a lost connection, and does not say
-- that the lease is another's.
abbrev is_acked : Outcome Reply → Outcome Reply → Bool
is_acked (returned r) second = is_reply (returned r)
is_acked failed second = false
is_acked disconnected second = is_reply second

-- The instants of the acks.
abbrev pub ack_times : List Exchange → List ℕ
ack_times [] = []
ack_times (x ∷ xs) =
    let rest = ack_times xs in if is_acked x.first x.second then x.now ∷ rest else rest

-- The clock runs on, from one instant to another.
abbrev pub RunsOn : ℕ → List Exchange → ℕ → Type 0
RunsOn start [] end = start ≤ end
RunsOn start (x ∷ xs) end = (start ≤ x.now) × RunsOn x.now xs end

abbrev pub is_older : ℕ → ℕ → ℕ → Bool
is_older window now t = ltb window (now - t)

roll-keeps :
    (jwt : Option ℕ) (c : Client)
    → ((roll jwt c).last_ack ≡ c.last_ack) × ((roll jwt c).deadman ≡ c.deadman)
roll-keeps none c = (refl, refl)
roll-keeps (some jwt) c = (refl, refl)

take_reply-ack :
    (now : ℕ) (r : Reply) (c : Client)
    → ((take_reply now r c).1.last_ack ≡ (if is_reply (returned r) then now else c.last_ack))
      × ((take_reply now r c).1.deadman ≡ c.deadman)
unfolding take_reply
take_reply-ack now r c = elim (Bool-cases (is_superseded r.command)) [
  | inl e ↦ rw e (roll-keeps r.jwt c)
  | inr e ↦ rw e (refl, (roll-keeps r.jwt c).1)
]

heartbeat-ack :
    (first second : Outcome Reply) (now : ℕ) (c : Client)
    → ((heartbeat first second now c).1.last_ack
        ≡ (if is_acked first second then now else c.last_ack))
      × ((heartbeat first second now c).1.deadman ≡ c.deadman)
unfolding heartbeat
heartbeat-ack (returned r) second now c = take_reply-ack now r c
heartbeat-ack failed second now c = (refl, refl)
heartbeat-ack disconnected (returned r) now c = take_reply-ack now r c
heartbeat-ack disconnected failed now c = (refl, refl)
heartbeat-ack disconnected disconnected now c = (refl, refl)

and_absorb : (a b r : Bool) → (b ≡ true → a ≡ true) → (a && (b && r)) ≡ (b && r)
and_absorb true b r h = refl
and_absorb false true r h = ground arith
and_absorb false false r h = refl

and_true : (a : Bool) → a ≡ (a && true)
and_true true = refl
and_true false = refl

-- A later ack decides.
older_later :
    (window end s t : ℕ) (bs : List ℕ)
    → s ≤ t
    → all (is_older window end) (s ∷ t ∷ bs) ≡ all (is_older window end) (t ∷ bs)
older_later window end s t bs h =
    and_absorb (is_older window end s) (is_older window end t) (all (is_older window end) bs)
      (λ e. ground arith)

RunsOn-weaken : (s t : ℕ) (xs : List Exchange) (end : ℕ) → s ≤ t → RunsOn t xs end → RunsOn s xs end
RunsOn-weaken s t [] end h r = omega arith
RunsOn-weaken s t (x ∷ xs) end h r = (omega arith, r.1)

run_beats-last_ack :
    (xs : List Exchange) (c : Client) (window end : ℕ)
    → RunsOn c.last_ack xs end
    → is_older window end (run_beats xs c).last_ack
      ≡ all (is_older window end) (c.last_ack ∷ ack_times xs)
unfolding run_beats
run_beats-last_ack [] c window end h = and_true (is_older window end c.last_ack)
run_beats-last_ack (x ∷ xs) c window end h =
    let d = (heartbeat x.first x.second x.now c).1 in
    let ack = (heartbeat-ack x.first x.second x.now c).0 in
    let ih = run_beats-last_ack xs d window end in
    elim (Bool-cases (is_acked x.first x.second)) [
      | inl e ↦
          let q : d.last_ack ≡ x.now = ack ∙ rw e refl in
          ih (rw q h.1)
          ∙ ap (λ (t : ℕ). all (is_older window end) (t ∷ ack_times xs)) q
          ∙ rw e (sym (older_later window end c.last_ack x.now (ack_times xs) h.0))
      | inr e ↦
          let q : d.last_ack ≡ c.last_ack = ack ∙ rw e refl in
          ih (rw q (RunsOn-weaken c.last_ack x.now xs end h.0 h.1))
          ∙ ap (λ (t : ℕ). all (is_older window end) (t ∷ ack_times xs)) q
          ∙ rw e refl
    ]

run_beats-deadman : (xs : List Exchange) (c : Client) → (run_beats xs c).deadman ≡ c.deadman
unfolding run_beats
run_beats-deadman [] c = refl
run_beats-deadman (x ∷ xs) c =
    run_beats-deadman xs (heartbeat x.first x.second x.now c).1
    ∙ (heartbeat-ack x.first x.second x.now c).1

-- Across any heartbeats of a client, whatever their requests meet, at instants that run on: it fences
-- itself exactly if its construction and every heartbeat that was acked are more than 30 s ago, and it
-- gives up exactly if all of these are longer ago than its dead-man window. A heartbeat is acked by an
-- answer, at the first request or at the one that follows a lost connection, that does not say that the
-- lease is another worker's.
pub fenced_iff :
    (jwt start deadman now : ℕ) (xs : List Exchange)
    → RunsOn start xs now
    → (should_pause now (run_beats xs (new_client jwt deadman start))
        ≡ all (is_older fence_pause now) (start ∷ ack_times xs))
      × (deadman_expired now (run_beats xs (new_client jwt deadman start))
          ≡ all (is_older deadman now) (start ∷ ack_times xs))
unfolding should_pause deadman_expired new_client
fenced_iff jwt start deadman now xs h =
    let c : Client = record { jwt = jwt; last_ack = start; deadman = deadman } in
    (
      run_beats-last_ack xs c fence_pause now h,
      rw (run_beats-deadman xs c) (run_beats-last_ack xs c deadman now h),
    )
