-- ===== src/Worker/Control/Backoff.antt =====
-- The retries of _post_with_backoff.
use stoker.Prelude.{
  ℕ, zero, suc, ◌+◌, ◌-◌, ◌*◌, ◌/◌, ◌≤◌, min, Bool, true, false, ◌≡◌, List, [], ◌∷◌, leb, length,
  arith, Bool-cases, inl, inr,
}
use Prim.Native.Nat.{◌^◌}
use native.Mathlib.Omega.{pow_step}
use native.Mathlib.Nat.{mul-le-mul_right}
use stoker.Worker.Control.{
  Attempt, Posted, answered, dead_man, overflowed, waits, overflow_attempt, delay, post_loop,
  post_with_backoff,
}

one_le_pow : (k : ℕ) → 1 ≤ 2 ^ k
one_le_pow zero = omega arith
one_le_pow (suc k) = omega (arith, pow_step 2 k, one_le_pow k)

-- A jitter as random.uniform(0.5, 1.5) gives it.
abbrev pub IsJitter : ℕ → Type 0
IsJitter j = (500000 ≤ j) × (j ≤ 1500000)

product_bounds :
    (m j : ℕ)
    → (500000 ≤ m) × (m ≤ 30000000)
    → IsJitter j
    → (250000 ≤ m * j / 1000000) × (m * j / 1000000 ≤ 45000000)
product_bounds m j h i =
    let low : 500000 * 500000 ≤ m * j = omega (arith, mul-le-mul_right j h.0) in
    let high : m * j ≤ 30000000 * 1500000 = omega (arith, mul-le-mul_right j h.1) in omega arith

delay_bounds : (k j : ℕ) → IsJitter j → (250000 ≤ delay k j) × (delay k j ≤ 45000000)
unfolding delay
delay_bounds k j h =
    let p = one_le_pow k in
    let m : (500000 ≤ min 30000000 (500000 * 2 ^ k)) × (min 30000000 (500000 * 2 ^ k) ≤ 30000000) =
      omega arith in
    product_bounds (min 30000000 (500000 * 2 ^ k)) j m h

two_pow_ge : (k : ℕ) → 6 ≤ k → 64 ≤ 2 ^ k
two_pow_ge zero h = absurd (omega arith)
two_pow_ge (suc k) h = elim (Bool-cases (leb 6 k)) [
  | inl more ↦ omega (arith, pow_step 2 k, two_pow_ge k (ground arith))
  | inr last ↦ let e : k ≡ 5 = ground arith in rw e (omega arith)
]

-- From the seventh attempt on the delay is the cap, of which the jitter leaves a half at least.
delay_capped : (k j : ℕ) → 6 ≤ k → IsJitter j → 15000000 ≤ delay k j
unfolding delay
delay_capped k j h i =
    let p = two_pow_ge k h in
    let cap : min 30000000 (500000 * 2 ^ k) ≡ 30000000 = omega arith in rw cap (omega arith)

-- At least this long the attempts before attempt k have slept.
abbrev slept : ℕ → ℕ
slept k = 15000000 * (k - 6)

slept_step :
    (k j elapsed : ℕ) → IsJitter j → slept k ≤ elapsed → slept (suc k) ≤ elapsed + delay k j
slept_step k j elapsed i h = elim (Bool-cases (leb 6 k)) [
  | inl capped ↦ omega (arith, delay_capped k j (ground arith) i)
  | inr early ↦ ground arith
]

-- The longest dead-man window, of 15270 seconds, that ends before a delay overflows.
abbrev pub safe_window : ℕ
safe_window = 15270000000

module _ {ℓ} {A : Type ℓ} where
  -- Answered, or DeadManError.
  abbrev pub is_settled : Posted A → Bool
  is_settled (answered a) = true
  is_settled dead_man = true
  is_settled overflowed = false
  is_settled waits = false

  -- The clock reads on from an instant, and each sleep takes its time at least.
  abbrev pub Elapses : ℕ → ℕ → List (Attempt A) → Type 0
  Elapses now k [] = Unit {0}
  Elapses now k (t ∷ ts) =
      (now ≤ t.now) × IsJitter t.jitter × Elapses (t.now + delay k t.jitter) (suc k) ts

  post_loop-cons :
      (deadman start k : ℕ) (t : Attempt A) (ts : List (Attempt A))
      → (leb deadman (t.now - start) ≡ false
          → (leb overflow_attempt k ≡ false)
            × (is_settled (post_loop deadman start (suc k) ts).0 ≡ true))
      → is_settled (post_loop deadman start k (t ∷ ts)).0 ≡ true
  unfolding post_loop
  post_loop-cons deadman start k t ts h = elim (Bool-cases (leb deadman (t.now - start))) [
    | inl e ↦ ground arith
    | inr e ↦ let g = h e in ground arith
  ]

  post_loop-ends :
      (deadman start now k : ℕ) (t : Attempt A) (ts : List (Attempt A))
      → deadman ≤ safe_window
      → Elapses now k (t ∷ ts)
      → start + slept k ≤ now
      → deadman + start ≤ now + 250000 * length ts
      → is_settled (post_loop deadman start k (t ∷ ts)).0 ≡ true
  post_loop-ends deadman start now k t [] safe e s h =
      post_loop-cons deadman start k t [] (λ f. absurd (ground arith))
  post_loop-ends deadman start now k t (u ∷ ts) safe e s h =
      post_loop-cons deadman start k t (u ∷ ts) (λ f.
        let early : leb overflow_attempt k ≡ false = ground arith in
        let passed : slept k ≤ t.now - start = omega (arith, e.0) in
        let next = slept_step k t.jitter (t.now - start) e.1 passed in
        (
          early,
          post_loop-ends deadman start (t.now + delay k t.jitter) (suc k) u ts safe e.2
              (omega (arith, e.0)) (omega (arith, delay_bounds k t.jitter e.1)),
        ))

  -- While the control plane cannot be reached, claim and ready give up: with jitters from a half to one and
  -- a half, clock readings that run on, each sleep taking its time at least, and a dead-man window of at most 15270 seconds,
  -- _post_with_backoff is answered or raises DeadManError, and nothing else, within one attempt for each
  -- quarter of a second of the window, and one more.
  pub post_with_backoff-ends :
      (deadman start : ℕ) (t : Attempt A) (ts : List (Attempt A))
      → deadman ≤ safe_window
      → Elapses start 0 (t ∷ ts)
      → deadman ≤ 250000 * length ts
      → is_settled (post_with_backoff deadman start (t ∷ ts)).0 ≡ true
  unfolding post_with_backoff
  post_with_backoff-ends deadman start t ts safe e h =
      post_loop-ends deadman start start 0 t ts safe e (omega arith) (omega arith)
