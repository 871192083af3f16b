-- ===== src/Engines/Apportion/Parts.antt =====
-- Each part of largest_remainder against its exact value.
use mathlib.Core.Option
use stoker.Prelude.{
  ℕ, zero, suc, ◌+◌, ◌-◌, ◌≤◌, ◌≡◌, refl, ap, ◌∙◌, inl, inr, Option, some, none, List, [], ◌∷◌, map,
  length, sum, take, count, get_elem?, ◌==◌, arith, Bool-cases, if◌then◌else◌, count-take_le,
  count-range_from_le,
}
use stoker.Engines.Apportion.{
  effective_weights, floor_part, fraction, before, insert, sort, index_of, bump, bump_all, split,
  largest_remainder,
}
use stoker.Engines.Apportion.Totals.{map-indexed, ranking}

get_elem?-bump :
    (i j : ℕ) (xs : List ℕ)
    → get_elem? (bump i xs) j ≡ Option.map (λ x. (if i == j then 1 else 0) + x) (get_elem? xs j)
unfolding bump
get_elem?-bump i j [] = refl
get_elem?-bump zero zero (x ∷ xs) = ap some (omega arith)
get_elem?-bump zero (suc j) (x ∷ xs) = unchanged (get_elem? xs j)
  where
    unchanged : (o : Option ℕ) → o ≡ Option.map (λ x. (if zero == suc j then 1 else 0) + x) o
    unchanged none = refl
    unchanged (some y) = ground arith
get_elem?-bump (suc i) zero (x ∷ xs) = ground arith
get_elem?-bump (suc i) (suc j) (x ∷ xs) =
    get_elem?-bump i j xs ∙ ap (λ (k : ℕ). Option.map (λ x. k + x) (get_elem? xs j)) (ground arith)

map-map_add :
    (a b : ℕ) (o : Option ℕ)
    → Option.map (λ x. a + x) (Option.map (λ x. b + x) o) ≡ Option.map (λ x. b + a + x) o
map-map_add a b none = refl
map-map_add a b (some x) = ap some (omega arith)

-- Every mention of an index adds one at that index.
pub get_elem?-bump_all :
    (is xs : List ℕ) (j : ℕ)
    → get_elem? (bump_all is xs) j ≡ Option.map (λ x. count j is + x) (get_elem? xs j)
unfolding bump_all
get_elem?-bump_all [] xs j = unchanged (get_elem? xs j)
  where
    unchanged : (o : Option ℕ) → o ≡ Option.map (λ x. 0 + x) o
    unchanged none = refl
    unchanged (some y) = ap some (omega arith)
get_elem?-bump_all (i ∷ is) xs j =
    get_elem?-bump_all is (bump i xs) j
    ∙ ap (Option.map (λ x. count j is + x)) (get_elem?-bump i j xs)
    ∙ map-map_add (count j is) (if i == j then 1 else 0) (get_elem? xs j)

count-insert :
    (a : ℕ) (x : ℕ × ℕ) (xs : List (ℕ × ℕ))
    → count a (map index_of (insert x xs)) ≡ (if x.1 == a then 1 else 0) + count a (map index_of xs)
unfolding insert
count-insert a x [] = refl
count-insert a x (y ∷ ys) = elim (Bool-cases (before x y)) [
  | inl e ↦ rw e
  | inr e ↦ rw e (omega (arith, count-insert a x ys))
]

pub count-sort :
    (a : ℕ) (xs : List (ℕ × ℕ)) → count a (map index_of (sort xs)) ≡ count a (map index_of xs)
unfolding sort
count-sort a [] = refl
count-sort a (x ∷ xs) = omega (arith, count-insert a x (sort xs), count-sort a xs)

-- The ranking names no slot twice.
pub count-ranking_le : (t : ℕ) (ws : List ℕ) (j : ℕ) → count j (ranking t ws) ≤ 1
count-ranking_le t ws j =
    rw (count-sort, map-indexed) (count-range_from_le j 0 (length (map (fraction t (sum ws)) ws)))

get_elem?-map :
    (f : ℕ → ℕ) (xs : List ℕ) (j : ℕ) → get_elem? (map f xs) j ≡ Option.map f (get_elem? xs j)
get_elem?-map f [] j = refl
get_elem?-map f (x ∷ xs) zero = refl
get_elem?-map f (x ∷ xs) (suc j) = get_elem?-map f xs j

-- A slot of weight w gets the floor of its exact part total * w / sum, or one more.
pub largest_remainder_quota :
    (total : ℕ) (weights : List ℕ) (slot w : ℕ)
    → get_elem? (effective_weights weights) slot ≡ some w
    → (part : ℕ) × (get_elem? (largest_remainder total weights) slot ≡ some part)
      × (floor_part total (sum (effective_weights weights)) w ≤ part)
      × (part ≤ floor_part total (sum (effective_weights weights)) w + 1)
unfolding largest_remainder split
largest_remainder_quota t weights j w h = (
  extra + q,
  get_elem?-bump_all winners floors j
      ∙ ap (Option.map (λ x. extra + x))
          (get_elem?-map (floor_part t (sum ws)) ws j ∙ ap (Option.map (floor_part t (sum ws))) h),
  omega arith,
  omega (arith, count-take_le j (t - sum floors) (ranking t ws), count-ranking_le t ws j),
)
  where
    ws : List ℕ
    ws = effective_weights weights

    floors : List ℕ
    floors = map (floor_part t (sum ws)) ws

    winners : List ℕ
    winners = take (t - sum floors) (ranking t ws)

    extra : ℕ
    extra = count j winners

    q : ℕ
    q = floor_part t (sum ws) w
