-- ===== src/Engines/Apportion/Equal.antt =====
-- largest_remainder at equal weights.
use mathlib.Core.Path.{ap₂}
use native.Mathlib.Nat.{mod-lt, div-add-mod}
use stoker.Prelude.{
  ℕ, zero, suc, ◌+◌, ◌-◌, ◌*◌, ◌/◌, ◌%◌, ◌≤◌, ◌<◌, ◌≡◌, refl, ap, ◌∙◌, List, ◌∷◌, ◌++◌, map, sum,
  replicate, take, range_from, arith, map-replicate, sum-replicate, length-replicate,
}
use stoker.Engines.Apportion.{
  effective_weights, floor_part, fraction, insert, sort, indexed, index_of, bump, bump_all, split,
  largest_remainder,
}
use stoker.Engines.Apportion.Totals.{map-indexed}

sort-indexed : (i n c : ℕ) → sort (indexed i (replicate n c)) ≡ indexed i (replicate n c)
unfolding sort indexed
sort-indexed i zero c = refl
sort-indexed i (suc zero) c = unfold insert in refl
sort-indexed i (suc (suc n)) c = rw (sort-indexed (suc i) (suc n) c) first
  where
    first :
        insert (c, i) (indexed (suc i) (replicate (suc n) c))
        ≡ indexed i (replicate (suc (suc n)) c)
    first = unfold insert in ground arith

take-range_from : (i k n : ℕ) → k ≤ n → take k (range_from i n) ≡ range_from i k
take-range_from i zero n h = refl
take-range_from i (suc k) zero h = absurd (omega arith)
take-range_from i (suc k) (suc n) h = ap (λ xs. i ∷ xs) (take-range_from (suc i) k n (omega arith))

bump_all-shift :
    (i k x : ℕ) (xs : List ℕ)
    → bump_all (range_from (suc i) k) (x ∷ xs) ≡ x ∷ bump_all (range_from i k) xs
unfolding bump_all
bump_all-shift i zero x xs = refl
bump_all-shift i (suc k) x xs = bump_all-shift (suc i) k x (bump i xs)

bump_all-range :
    (k m q : ℕ)
    → bump_all (range_from 0 k) (replicate (k + m) q) ≡ replicate k (suc q) ++ replicate m q
unfolding bump_all
bump_all-range zero m q = ap (λ (n : ℕ). replicate n q) (omega arith)
bump_all-range (suc k) m q =
    ap (λ (n : ℕ). bump_all (range_from 0 (suc k)) (replicate n q)) shape
    ∙ bump_all-shift 0 k (suc q) (replicate (k + m) q)
    ∙ ap (λ xs. suc q ∷ xs) (bump_all-range k m q)
  where
    shape : suc k + m ≡ suc (k + m)
    shape = omega arith

-- The equal split of a total over n slots.
unfoldable pub equal_split : ℕ → ℕ → List ℕ
equal_split total n =
    replicate (total % n) (suc (total / n)) ++ replicate (n - total % n) (total / n)

split-equal : (t n : ℕ) → 0 < n → split t n (replicate n 1) ≡ equal_split t n
unfolding split equal_split
split-equal t n h =
    ap₂ bump_all
      (ap₂ take shortfall order ∙ take-range_from 0 (t % n) n (omega (arith, mod-lt t h)))
      (map-replicate (floor_part t n) n 1 ∙ ap (λ (k : ℕ). replicate k (floor_part t n 1)) size)
    ∙ bump_all-range (t % n) (n - t % n) (floor_part t n 1)
    ∙ ap (λ (q : ℕ). replicate (t % n) (suc q) ++ replicate (n - t % n) q) quotient
  where
    quotient : floor_part t n 1 ≡ t / n
    quotient = unfold floor_part in ap (λ (x : ℕ). x / n) (omega arith)

    size : n ≡ t % n + (n - t % n)
    size = omega (arith, mod-lt t h)

    shortfall : t - sum (map (floor_part t n) (replicate n 1)) ≡ t % n
    shortfall = omega (
      arith,
      ap sum (map-replicate (floor_part t n) n 1),
      sum-replicate n (floor_part t n 1),
      ap (λ (q : ℕ). n * q) quotient,
      div-add-mod t n,
    )

    order : map index_of (sort (indexed 0 (map (fraction t n) (replicate n 1)))) ≡ range_from 0 n
    order =
        ap (λ fs. map index_of (sort (indexed 0 fs))) (map-replicate (fraction t n) n 1)
        ∙ ap (map index_of) (sort-indexed 0 n (fraction t n 1))
        ∙ map-indexed 0 (replicate n (fraction t n 1))
        ∙ ap (range_from 0) (length-replicate n (fraction t n 1))

effective_weights-replicate : (n : ℕ) → 0 < n → effective_weights (replicate n 1) ≡ replicate n 1
unfolding effective_weights
effective_weights-replicate n h = ground (arith, sum-replicate n 1)

-- At equal weights the first total % n slots get one more than the others, which get total / n.
pub largest_remainder-equal :
    (total n : ℕ) → 0 < n → largest_remainder total (replicate n 1) ≡ equal_split total n
unfolding largest_remainder
largest_remainder-equal t n h = rw (effective_weights-replicate n h) (
    ap (λ (w : ℕ). split t w (replicate n 1)) (sum-replicate n 1 ∙ omega arith) ∙ split-equal t n h)
