-- ===== src/Engines/Apportion/Totals.antt =====
-- The sum of the parts of largest_remainder.
use native.Mathlib.Nat.{mod-lt, le_of_mul-le-mul_right}
use stoker.Prelude.{
  ℕ, zero, suc, ◌+◌, ◌-◌, ◌*◌, ◌≤◌, ◌<◌, ◌≡◌, refl, sym, ap, ◌∙◌, inl, inr, List, [], ◌∷◌, map,
  length, sum, take, range_from, arith, Bool-cases, length-replicate, length-map, length-range_from,
  length-take_le, sum-replicate,
}
use stoker.Engines.Apportion.{
  effective_weights, floor_part, fraction, before, insert, sort, indexed, index_of, bump, bump_all,
  split, largest_remainder,
}

abbrev pub Below : ℕ → List ℕ → Type 0
Below n [] = Unit {0}
Below n (x ∷ xs) = (x < n) × Below n xs

Below-take : (n k : ℕ) (xs : List ℕ) → Below n xs → Below n (take k xs)
Below-take n zero xs h = tt
Below-take n (suc k) [] h = tt
Below-take n (suc k) (x ∷ xs) h = (h.0, Below-take n k xs h.1)

Below-range_from : (m i n : ℕ) → i + n ≤ m → Below m (range_from i n)
Below-range_from m i zero h = tt
Below-range_from m i (suc n) h = (omega arith, Below-range_from m (suc i) n (omega arith))

Below-insert :
    (n : ℕ) (x : ℕ × ℕ) (xs : List (ℕ × ℕ))
    → x.1 < n
    → Below n (map index_of xs)
    → Below n (map index_of (insert x xs))
unfolding insert
Below-insert n x [] h b = (h, tt)
Below-insert n x (y ∷ ys) h b = elim (Bool-cases (before x y)) [
  | inl e ↦ rw e (h, b)
  | inr e ↦ rw e (b.0, Below-insert n x ys h b.1)
]

pub Below-sort :
    (n : ℕ) (xs : List (ℕ × ℕ)) → Below n (map index_of xs) → Below n (map index_of (sort xs))
unfolding sort
Below-sort n [] b = tt
Below-sort n (x ∷ xs) b = Below-insert n x (sort xs) b.0 (Below-sort n xs b.1)

length-insert : (x : ℕ × ℕ) (xs : List (ℕ × ℕ)) → length (insert x xs) ≡ suc (length xs)
unfolding insert
length-insert x [] = refl
length-insert x (y ∷ ys) = ground (arith, length-insert x ys)

pub length-sort : (xs : List (ℕ × ℕ)) → length (sort xs) ≡ length xs
unfolding sort
length-sort [] = refl
length-sort (x ∷ xs) = omega (arith, length-insert x (sort xs), length-sort xs)

pub map-indexed : (i : ℕ) (fs : List ℕ) → map index_of (indexed i fs) ≡ range_from i (length fs)
unfolding indexed
map-indexed i [] = refl
map-indexed i (f ∷ fs) = ap (λ xs. i ∷ xs) (map-indexed (suc i) fs)

pub length-bump : (i : ℕ) (xs : List ℕ) → length (bump i xs) ≡ length xs
unfolding bump
length-bump i [] = refl
length-bump zero (x ∷ xs) = refl
length-bump (suc i) (x ∷ xs) = omega (arith, length-bump i xs)

sum-bump : (i : ℕ) (xs : List ℕ) → i < length xs → sum (bump i xs) ≡ suc (sum xs)
unfolding bump
sum-bump i [] h = absurd (omega arith)
sum-bump zero (x ∷ xs) h = omega arith
sum-bump (suc i) (x ∷ xs) h = omega (arith, sum-bump i xs (omega arith))

pub length-bump_all : (is xs : List ℕ) → length (bump_all is xs) ≡ length xs
unfolding bump_all
length-bump_all [] xs = refl
length-bump_all (i ∷ is) xs = length-bump_all is (bump i xs) ∙ length-bump i xs

sum-bump_all : (is xs : List ℕ) → Below (length xs) is → sum (bump_all is xs) ≡ length is + sum xs
unfolding bump_all
sum-bump_all [] xs b = omega arith
sum-bump_all (i ∷ is) xs b =
    omega (arith, sum-bump_all is (bump i xs) (rw length-bump b.1), sum-bump i xs b.0)

-- The floors and the fractions of all slots make up total * sum weights.
floors_and_fractions :
    (t w : ℕ) (ws : List ℕ)
    → sum (map (floor_part t w) ws) * w + sum (map (fraction t w) ws) ≡ t * sum ws
unfolding floor_part fraction
floors_and_fractions t w [] = omega arith
floors_and_fractions t w (x ∷ xs) = omega (arith, floors_and_fractions t w xs)

fractions_bound :
    (t w : ℕ) (ws : List ℕ) → 0 < w → sum (map (fraction t w) ws) + length ws ≤ length ws * w
unfolding fraction
fractions_bound t w [] h = omega arith
fractions_bound t w (x ∷ xs) h = omega (arith, fractions_bound t w xs h, mod-lt (t * x) h)

shortfall_bound :
    (t f r n w : ℕ) → 0 < w → f * w + r ≡ t * w → r + n ≤ n * w → (f ≤ t) × (t ≤ f + n)
shortfall_bound t f r n w h e b =
    (le_of_mul-le-mul_right (omega arith) h, le_of_mul-le-mul_right (omega arith) h)

pub floors_within :
    (t : ℕ) (ws : List ℕ)
    → 0 < sum ws
    → (sum (map (floor_part t (sum ws)) ws) ≤ t)
      × (t ≤ sum (map (floor_part t (sum ws)) ws) + length ws)
floors_within t ws h =
    shortfall_bound t _ _ (length ws) (sum ws) h (floors_and_fractions t (sum ws) ws)
      (fractions_bound t (sum ws) ws h)

abbrev pub ranking : ℕ → List ℕ → List ℕ
ranking t ws = map index_of (sort (indexed 0 (map (fraction t (sum ws)) ws)))

pub length-ranking : (t : ℕ) (ws : List ℕ) → length (ranking t ws) ≡ length ws
length-ranking t ws =
    length-map index_of (sort (indexed 0 (map (fraction t (sum ws)) ws)))
    ∙ length-sort (indexed 0 (map (fraction t (sum ws)) ws))
    ∙ sym (length-map index_of (indexed 0 (map (fraction t (sum ws)) ws)))
    ∙ ap length (map-indexed 0 (map (fraction t (sum ws)) ws))
    ∙ length-range_from 0 (length (map (fraction t (sum ws)) ws))
    ∙ length-map (fraction t (sum ws)) ws

Below-ranking : (t : ℕ) (ws : List ℕ) → Below (length ws) (ranking t ws)
Below-ranking t ws = Below-sort (length ws) _ (
    rw (map-indexed, length-map (fraction t (sum ws)) ws)
      (Below-range_from (length ws) 0 (length ws) (omega arith)))

pub sum-split : (t : ℕ) (ws : List ℕ) → 0 < sum ws → sum (split t (sum ws) ws) ≡ t
unfolding split
sum-split t ws h = omega (
  arith,
  sum-bump_all (take (t - sum floors) (ranking t ws)) floors (
      rw (length-map (floor_part t (sum ws)) ws)
        (Below-take (length ws) (t - sum floors) (ranking t ws) (Below-ranking t ws))),
  length-take_le (t - sum floors) (ranking t ws)
      (omega (arith, floors_within t ws h, length-ranking t ws)),
  (floors_within t ws h).0,
)
  where
    floors : List ℕ
    floors = map (floor_part t (sum ws)) ws

pub length-split : (t w : ℕ) (ws : List ℕ) → length (split t w ws) ≡ length ws
unfolding split
length-split t w ws =
    length-bump_all
      (take (t - sum (map (floor_part t w) ws))
        (map index_of (sort (indexed 0 (map (fraction t w) ws)))))
      (map (floor_part t w) ws)
    ∙ length-map (floor_part t w) ws

pub effective_weights_pos : (ws : List ℕ) → 0 < length ws → 0 < sum (effective_weights ws)
unfolding effective_weights
effective_weights_pos ws h = ground (arith, sum-replicate (length ws) 1)

pub length-effective_weights : (ws : List ℕ) → length (effective_weights ws) ≡ length ws
unfolding effective_weights
length-effective_weights ws = ground (arith, length-replicate {A = ℕ} (length ws) 1)

-- largest_remainder gives every slot a part, and the parts sum to exactly the total, for any
-- non-empty list of weights.
pub largest_remainder_total :
    (total : ℕ) (weights : List ℕ)
    → 0 < length weights
    → (sum (largest_remainder total weights) ≡ total)
      × (length (largest_remainder total weights) ≡ length weights)
unfolding largest_remainder
largest_remainder_total t ws h = (
  sum-split t (effective_weights ws) (effective_weights_pos ws h),
  length-split t (sum (effective_weights ws)) (effective_weights ws) ∙ length-effective_weights ws,
)
