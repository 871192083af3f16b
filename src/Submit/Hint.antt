-- ===== src/Submit/Hint.antt =====
-- The worker count that the submit gate suggests to a fleet that it refuses.
use mathlib.Core.Option.{some-injective}
use native.Mathlib.Nat.{lt_of_mul-lt-mul_right}
use stoker.Prelude.{
  ℕ, ◌-◌, ◌*◌, ◌≤◌, ◌<◌, ◌≡◌, ap, ◌∙◌, inl, inr, ◌⊎◌, Option, none, some, false, not, arith, lt→ltb,
  ◌||◌,
}
use stoker.Engines.Apportion.{eps}
use stoker.Engines.Ceilings.{
  Amount, Bounds, whole, check_slice, over, eps_to_gb_day, eps_limit, gb_day_limit,
}
use stoker.Engines.Ceilings.Verdict.{Suffices, Explains, check_slice-ok_iff, check_slice-suggestion}
use stoker.Submit.{per_worker_share, ceiling_gate}

abbrev pub bounded_eps : ℕ → Option ℕ → Bounds
bounded_eps c gb = record { gb_day = gb; eps = some c }

refused :
    (s c : ℕ) (gb : Option ℕ)
    → c < s
    → (check_slice eps (some s) none (some (bounded_eps c gb))).ok ≡ false
unfolding over
refused s c gb h =
    check_slice-ok_iff eps s none (bounded_eps c gb) (omega arith)
    ∙ ap (λ b. not (b || over (eps_to_gb_day s none) gb)) (lt→ltb (c * 1) s (omega arith))

no_more : (n w s c : ℕ) → 0 < c → 2 ≤ w → s ≤ w * c → Suffices (whole s) c n → n ≤ w
no_more n w s c p q b f = elim f.least [
  | inl two ↦ omega arith
  | inr fewer ↦
      let below : (n - 1) * c < w * c = omega arith in omega (arith, lt_of_mul-lt-mul_right c below)
]

same-Suffices :
    (a b : Amount) (c d n : ℕ) → some a ≡ some b → some c ≡ some d → Suffices b d n → Suffices a c n
same-Suffices a b c d n p q f =
    let amounts : a ≡ b = some-injective a b p in
    let ceilings : c ≡ d = some-injective c d q in rw (amounts, ceilings) f

-- When the submit gate refuses the share that each of two or more workers would carry, and that share
-- is at most the fleet's size times the ceiling, the worker count that the refusal suggests is no
-- larger than the fleet that was refused. The rate is in events per second, the bytes per event are
-- not known.
pub ceiling_gate_hint_too_small :
    (rate workers share c : ℕ) (gb : Option ℕ)
    → 0 < c
    → 2 ≤ workers
    → per_worker_share eps (some rate) workers ≡ some share
    → c < share
    → share ≤ workers * c
    → (n : ℕ) × ((ceiling_gate eps
          (some rate)
          workers
          none
          (some (bounded_eps c gb))).suggested_workers
        ≡ some n)
      × (n ≤ workers)
unfolding ceiling_gate eps_to_gb_day
ceiling_gate_hint_too_small rate w s c gb p q e o b = rw e (
    hint (check_slice-suggestion eps s none (bounded_eps c gb) (omega arith) tt (refused s c gb o)))
  where
    hint :
        ((check_slice eps (some s) none (some (bounded_eps c gb))).limiting_factor ≡ some eps_limit)
            × Explains
                (some (whole s))
                (some c)
                (check_slice eps (some s) none (some (bounded_eps c gb)))
          ⊎ ((check_slice eps (some s) none (some (bounded_eps c gb))).limiting_factor
              ≡ some gb_day_limit)
            × Explains none gb (check_slice eps (some s) none (some (bounded_eps c gb)))
        → (n : ℕ) × ((check_slice eps (some s) none (some (bounded_eps c gb))).suggested_workers
            ≡ some n)
          × (n ≤ w)
    hint (inl (factor, x)) = (
      x.workers,
      x.suggested,
      no_more x.workers w s c p q b
          (same-Suffices _ _ _ _ x.workers x.measured x.bounded x.suffices),
    )
    hint (inr (factor, x)) = cc (x.measured)
