-- ===== src/Engines/Ceilings/Verdict.antt =====
-- What check_slice accepts and suggests.
use native.Mathlib.Nat.{le_trans, mul-le-mul_right, lt-mul-div-succ, div-mul-le_self}
use stoker.Prelude.{
  ℕ, zero, suc, ◌+◌, ◌-◌, ◌*◌, ◌≤◌, ◌<◌, ◌≡◌, refl, ◌∙◌, inl, inr, ◌⊎◌, max, true, false, not, ◌||◌,
  Option, none, some, ltb, ltb→lt, arith, Bool-cases,
}
use stoker.Engines.Apportion.{RateMode, eps, per_day_gb, count_interval}
use stoker.Engines.Ceilings.{
  Bounds, Amount, whole, eps_to_gb_day, gb_day_to_eps, LimitingFactor, eps_limit, gb_day_limit,
  CeilingCheck, fits, over, ceil_div, exceeded, first_over, check_mode, check_slice,
}

-- The share as events per second, and as GB per day, where they are known.
abbrev pub eps_of : RateMode → ℕ → Option Amount → Option Amount
eps_of eps v bytes = some (whole v)
eps_of per_day_gb v bytes = gb_day_to_eps v bytes
eps_of count_interval v bytes = none

abbrev pub gb_day_of : RateMode → ℕ → Option Amount → Option Amount
gb_day_of eps v bytes = eps_to_gb_day v bytes
gb_day_of per_day_gb v bytes = some (whole v)
gb_day_of count_interval v bytes = none

over-exceeded :
    (f : LimitingFactor) (a : Option Amount) (c : Option ℕ)
    → over a c ≡ true
    → (exceeded f a c).ok ≡ false
unfolding over exceeded
over-exceeded f none c h = cc
over-exceeded f (some a) none h = cc
over-exceeded f (some a) (some c) h = refl

first_over-ok :
    (f g : LimitingFactor) (a b : Option Amount) (c d : Option ℕ)
    → (first_over f a c g b d).ok ≡ not (over a c || over b d)
unfolding first_over fits
first_over-ok f g a b c d = elim (Bool-cases (over a c)) [
  | inl e ↦ rw (e, first_over) (over-exceeded f a c e)
  | inr e ↦ elim (Bool-cases (over b d)) [
    | inl e' ↦ rw (e, e') (over-exceeded g b d e')
    | inr e' ↦ rw (e, e') refl
  ]
]

-- A share is accepted exactly if neither its events per second nor its GB per day, converted by the
-- bytes per event where these are known, is over its bound.
pub check_slice-ok_iff :
    (mode : RateMode) (v : ℕ) (bytes : Option Amount) (bounds : Bounds)
    → 0 < v
    → (check_slice mode (some v) bytes (some bounds)).ok
      ≡ not (over (eps_of mode v bytes) bounds.eps || over (gb_day_of mode v bytes) bounds.gb_day)
unfolding check_slice
check_slice-ok_iff mode zero bytes bounds h = absurd (omega arith)
check_slice-ok_iff eps (suc n) bytes bounds h =
    first_over-ok eps_limit gb_day_limit (some (whole (suc n))) (eps_to_gb_day (suc n) bytes)
      bounds.eps bounds.gb_day
check_slice-ok_iff per_day_gb (suc n) bytes bounds h =
    first_over-ok gb_day_limit eps_limit (some (whole (suc n))) (gb_day_to_eps (suc n) bytes)
      bounds.gb_day bounds.eps
    ∙ ground arith
check_slice-ok_iff count_interval (suc n) bytes bounds h = unfold over in refl

-- ceil_div is the least number of workers among which the amount is within the ceiling.
ceil_div_enough : (a : Amount) (c : ℕ) → 0 < c * a.den → a.num ≤ ceil_div a c * (c * a.den)
unfolding ceil_div
ceil_div_enough a c h = omega (arith, lt-mul-div-succ (a.num + (c * a.den - 1)) h)

one_fewer : (q d n : ℕ) → 0 < d → 0 < n → q * d ≤ n + (d - 1) → (q - 1) * d < n
one_fewer zero d n h p b = omega arith
one_fewer (suc q) d n h p b = let e : suc q - 1 ≡ q = omega arith in rw e (omega arith)

ceil_div_least :
    (a : Amount) (c : ℕ) → 0 < c * a.den → 0 < a.num → (ceil_div a c - 1) * (c * a.den) < a.num
unfolding ceil_div
ceil_div_least a c h p =
    one_fewer _ (c * a.den) a.num h p (div-mul-le_self (a.num + (c * a.den - 1)) (c * a.den))

-- n workers are the least fleet, of two at least, among which an amount is within its ceiling.
pub record Suffices (a : Amount) (c n : ℕ) : Type 0 where
  pub at_least_two : 2 ≤ n
  pub enough : a.num ≤ n * (c * a.den)
  pub least : (n ≡ 2) ⊎ ((n - 1) * (c * a.den) < a.num)

-- A refusal names a factor, and suggests what its amount needs.
pub record Explains (a : Option Amount) (bound : Option ℕ) (check : CeilingCheck) : Type 0 where
  pub amount : Amount
  pub ceiling : ℕ
  pub workers : ℕ
  pub measured : a ≡ some amount
  pub bounded : bound ≡ some ceiling
  pub suggested : check.suggested_workers ≡ some workers
  pub suffices : Suffices amount ceiling workers

abbrev pub IsPositive : Option Amount → Option ℕ → Type 0
IsPositive none c = Unit {0}
IsPositive (some a) none = Unit {0}
IsPositive (some a) (some c) = 0 < c * a.den

ceil_div-Suffices :
    (a : Amount) (c : ℕ)
    → 0 < c * a.den
    → ltb (c * a.den) a.num ≡ true
    → Suffices a c (max 2 (ceil_div a c))
ceil_div-Suffices a c h o =
    let bigger : c * a.den < a.num = ltb→lt (c * a.den) a.num o in
    record {
      at_least_two = omega arith;
      enough = le_trans (ceil_div_enough a c h) (
          mul-le-mul_right {m = ceil_div a c} {n = max 2 (ceil_div a c)} (c * a.den) (omega arith));
      least = least_of (ceil_div a c) (c * a.den) a.num (ceil_div_least a c h (omega arith));
    }
  where
    least_of : (q d n : ℕ) → (q - 1) * d < n → (max 2 q ≡ 2) ⊎ ((max 2 q - 1) * d < n)
    least_of q d n h = elim (Bool-cases (ltb 2 q)) [
      | inl more ↦ let same : max 2 q ≡ q = ground arith in inr (rw same h)
      | inr less ↦ inl (ground arith)
    ]

exceeded-Explains :
    (f : LimitingFactor) (a : Option Amount) (c : Option ℕ)
    → over a c ≡ true
    → IsPositive a c
    → Explains a c (exceeded f a c)
unfolding over exceeded
exceeded-Explains f none c h p = cc
exceeded-Explains f (some a) none h p = cc
exceeded-Explains f (some a) (some c) h p = record {
  amount = a;
  ceiling = c;
  workers = max 2 (ceil_div a c);
  measured = refl;
  bounded = refl;
  suggested = refl;
  suffices = ceil_div-Suffices a c p h;
}

exceeded-factor :
    (f : LimitingFactor) (a : Option Amount) (c : Option ℕ)
    → over a c ≡ true
    → (exceeded f a c).limiting_factor ≡ some f
unfolding over exceeded
exceeded-factor f none c h = cc
exceeded-factor f (some a) none h = cc
exceeded-factor f (some a) (some c) h = refl

first_over-Explains :
    (f g : LimitingFactor) (a b : Option Amount) (c d : Option ℕ)
    → IsPositive a c
    → IsPositive b d
    → (first_over f a c g b d).ok ≡ false
    → (((first_over f a c g b d).limiting_factor ≡ some f) × Explains a c (first_over f a c g b d))
      ⊎ (((first_over f a c g b d).limiting_factor ≡ some g)
          × Explains b d (first_over f a c g b d))
unfolding first_over fits
first_over-Explains f g a b c d p q h = elim (Bool-cases (over a c)) [
  | inl e ↦ rw e (inl (exceeded-factor f a c e, exceeded-Explains f a c e p))
  | inr e ↦ elim (Bool-cases (over b d)) [
    | inl e' ↦ rw (e, e') (inr (exceeded-factor g b d e', exceeded-Explains g b d e' q))
    | inr e' ↦ cc (rw (e, e') at h)
  ]
]

-- A refusal names the events per second or the GB per day, and suggests the least number of workers,
-- of two at least, among which that amount is within its bound. The amount is the one share that was
-- checked.
pub check_slice-suggestion :
    (mode : RateMode) (v : ℕ) (bytes : Option Amount) (bounds : Bounds)
    → IsPositive (eps_of mode v bytes) bounds.eps
    → IsPositive (gb_day_of mode v bytes) bounds.gb_day
    → (check_slice mode (some v) bytes (some bounds)).ok ≡ false
    → (((check_slice mode (some v) bytes (some bounds)).limiting_factor ≡ some eps_limit)
        × Explains (eps_of mode v bytes) bounds.eps (check_slice mode (some v) bytes (some bounds)))
      ⊎ (((check_slice mode (some v) bytes (some bounds)).limiting_factor ≡ some gb_day_limit)
          × Explains
              (gb_day_of mode v bytes)
              bounds.gb_day
              (check_slice mode (some v) bytes (some bounds)))
unfolding check_slice check_mode fits
check_slice-suggestion count_interval v bytes bounds p q h = cc
check_slice-suggestion eps zero bytes bounds p q h = cc
check_slice-suggestion per_day_gb zero bytes bounds p q h = cc
check_slice-suggestion eps (suc n) bytes bounds p q h =
    first_over-Explains eps_limit gb_day_limit (some (whole (suc n))) (eps_to_gb_day (suc n) bytes)
      bounds.eps bounds.gb_day p q h
check_slice-suggestion per_day_gb (suc n) bytes bounds p q h = swap (
    first_over-Explains gb_day_limit eps_limit (some (whole (suc n))) (gb_day_to_eps (suc n) bytes)
      bounds.gb_day bounds.eps q p h)
  where
    swap : {A B : Type 0} → A ⊎ B → B ⊎ A
    swap (inl a) = inr a
    swap (inr b) = inl b
