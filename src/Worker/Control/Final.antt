-- ===== src/Worker/Control/Final.antt =====
-- The final report and the drain's deadline.
use stoker.Prelude.{
  ℕ, zero, suc, ◌+◌, ◌≤◌, ◌<◌, Bool, true, false, ◌≡◌, some, List, [], ◌∷◌, leb, if◌then◌else◌,
  arith, Bool-cases, inl, inr, Option-cases,
}
use stoker.Worker.Control.{
  Round, Action, request, sleep, final_pause, final_timeout, is_over, final_rounds, final,
}

-- A request ends by the deadline, and a sleep starts before it.
abbrev InTime : ℕ → ℕ → Action → Type 0
InTime timeout deadline (request start length) =
    (start < deadline) × (start + length ≤ deadline) × (length ≤ timeout)
InTime timeout deadline (sleep start length) = (start < deadline) × (length ≤ 2000000)

abbrev pub AllInTime : ℕ → ℕ → List Action → Type 0
AllInTime timeout deadline [] = Unit {0}
AllInTime timeout deadline (a ∷ actions) =
    InTime timeout deadline a × AllInTime timeout deadline actions

abbrev pub requests : List Action → ℕ
requests [] = 0
requests (request start length ∷ actions) = suc (requests actions)
requests (sleep start length ∷ actions) = requests actions

final_timeout-InTime :
    (timeout deadline before t : ℕ)
    → final_timeout timeout (some deadline) before ≡ some t
    → InTime timeout deadline (request before t)
unfolding final_timeout
final_timeout-InTime timeout deadline before t h = ground arith

-- What holds of the rest of the rounds.
abbrev Kept : ℕ → ℕ → ℕ → Bool × List Action → Type 0
Kept timeout deadline left p = AllInTime timeout deadline p.1 × (requests p.1 ≤ left)

-- One round, whatever the later ones do.
round-Kept :
    (timeout deadline left k t : ℕ) (r : Round) (p : Bool × List Action)
    → InTime timeout deadline (request r.before t)
    → Kept timeout deadline left p
    → Kept timeout deadline (suc left) (
        if r.succeeds
        then (true, request r.before t ∷ [])
        else if is_over (some deadline) r.after
        then (false, request r.before t ∷ [])
        else (p.0, request r.before t ∷ sleep r.after (final_pause k) ∷ p.1))
round-Kept timeout deadline left k t r (sent, actions) i h = elim (Bool-cases r.succeeds) [
  | inl e ↦ rw e ((i, tt), omega arith)
  | inr e ↦ elim (Bool-cases (leb deadline r.after)) [
    | inl o ↦ rw (e, o) ((i, tt), omega arith)
    | inr o ↦ rw (e, o) ((i, (ground arith, h.0)), omega (arith, h.1))
  ]
]

final_rounds-Kept :
    (timeout deadline : ℕ) (rounds : ℕ → Round) (k left : ℕ)
    → Kept timeout deadline left (final_rounds timeout (some deadline) rounds k left)
unfolding final_rounds
final_rounds-Kept timeout deadline rounds k zero = (tt, omega arith)
final_rounds-Kept timeout deadline rounds k (suc left) =
    let ih = final_rounds-Kept timeout deadline rounds (suc k) left in
    elim (Option-cases (final_timeout timeout (some deadline) (rounds k).before)) [
      | inl e ↦ rw (e, final_rounds) (tt, omega arith)
      | inr (t, e) ↦
          let i = final_timeout-InTime timeout deadline (rounds k).before t e in
          rw (e, final_rounds) (round-Kept timeout deadline left k t (rounds k) _ i ih)
    ]

-- The final report never holds up a drain by much: with a deadline, whatever the requests do, final makes
-- three requests at most, each starts before the deadline with a timeout that ends by it and is no
-- longer than the client's, and each sleep starts before the deadline and is two seconds at most.
pub final-in_time :
    (timeout deadline : ℕ) (rounds : ℕ → Round)
    → AllInTime timeout deadline (final timeout (some deadline) rounds).1
      × (requests (final timeout (some deadline) rounds).1 ≤ 3)
unfolding final
final-in_time timeout deadline rounds = final_rounds-Kept timeout deadline rounds 0 3
