-- ===== src/Engines/Apportion.antt =====
-- server/engines/apportion.py: a total divided over worker slots.
-- Weights and rates are natural numbers: finite, non-negative floats are multiples of a common
-- unit, so the weights lose nothing; the unit of a rate is a millionth. Products by a quotient of
-- weights are exact in largest_remainder, and are rounded down to the unit of the rate in
-- apportion_shares. A rate of a count_interval spec is rounded to a whole count.
-- Negative, infinite and NaN weights are not modelled.
pub mod Totals
pub mod Parts
pub mod Equal
pub mod Shares
use stoker.Prelude.{
  ℕ, zero, suc, ◌+◌, ◌-◌, ◌*◌, ◌/◌, ◌%◌, Bool, true, false, ◌&&◌, ◌||◌, not, Option, none, some,
  List, [], ◌∷◌, map, length, sum, replicate, take, range_from, ltb, ◌==◌, if◌then◌else◌, ◌≡◌, refl,
}

-- A weight list that sums to 0 becomes the equal split.
unfoldable pub effective_weights : List ℕ → List ℕ
effective_weights weights = if sum weights == 0 then replicate (length weights) 1 else weights

-- int(math.floor(total * (w / weight_sum)))
pub floor_part : ℕ → ℕ → ℕ → ℕ
floor_part total weight_sum w = total * w / weight_sum

-- exact[i] - floors[i], in units of 1 / weight_sum
pub fraction : ℕ → ℕ → ℕ → ℕ
fraction total weight_sum w = total * w % weight_sum

-- The sort key of a slot: the larger fraction first, the lower index on a tie.
pub before : ℕ × ℕ → ℕ × ℕ → Bool
before (f, i) (g, j) = ltb g f || (f == g && ltb i j)

pub insert : ℕ × ℕ → List (ℕ × ℕ) → List (ℕ × ℕ)
unfolding before
insert x [] = x ∷ []
insert x (y ∷ ys) = let rest = insert x ys in if before x y then x ∷ y ∷ ys else y ∷ rest

pub sort : List (ℕ × ℕ) → List (ℕ × ℕ)
unfolding insert
sort [] = []
sort (x ∷ xs) = insert x (sort xs)

-- Each fraction with its index, from index i on.
pub indexed : ℕ → List ℕ → List (ℕ × ℕ)
indexed i [] = []
indexed i (f ∷ fs) = (f, i) ∷ indexed (suc i) fs

abbrev pub index_of : ℕ × ℕ → ℕ
index_of p = p.1

-- floors[i] += 1
pub bump : ℕ → List ℕ → List ℕ
bump i [] = []
bump zero (x ∷ xs) = suc x ∷ xs
bump (suc i) (x ∷ xs) = x ∷ bump i xs

pub bump_all : List ℕ → List ℕ → List ℕ
unfolding bump
bump_all [] floors = floors
bump_all (i ∷ is) floors = bump_all is (bump i floors)

-- The split by weights that do not sum to 0.
pub split : ℕ → ℕ → List ℕ → List ℕ
unfolding floor_part fraction sort indexed bump_all
split total weight_sum weights =
    let floors = map (floor_part total weight_sum) weights in
    let remainders = map index_of (sort (indexed 0 (map (fraction total weight_sum) weights))) in
    bump_all (take (total - sum floors) remainders) floors

unfoldable pub largest_remainder : ℕ → List ℕ → List ℕ
unfolding effective_weights split
largest_remainder total weights =
    split total (sum (effective_weights weights)) (effective_weights weights)

pub data RateMode : Type 0 where
  eps per_day_gb count_interval : RateMode

-- The single key of a share and its value: a rate, or a whole count.
pub record Share : Type 0 where
  pub mode : RateMode
  pub value : ℕ

-- rate_value * (w / weight_sum), to the unit
pub rate_parts : ℕ → List ℕ → List ℕ
unfolding effective_weights
rate_parts rate weights =
    map (λ w. rate * w / sum (effective_weights weights)) (effective_weights weights)

add_to_last : ℕ → List ℕ → List ℕ
add_to_last d [] = []
add_to_last d (x ∷ []) = (x + d) ∷ []
add_to_last d (x ∷ y ∷ ys) = x ∷ add_to_last d (y ∷ ys)

-- The residue total - current goes to the last slot.
fix_float_residue : ℕ → List ℕ → List ℕ
unfolding add_to_last
fix_float_residue total parts = add_to_last (total - sum parts) parts

pub data Error : Type 0 where
  no_workers weights_mismatch no_rate : Error

pub data Result : Type 0 where
  ok : List Share → Result
  error : Error → Result

as_shares : RateMode → List ℕ → List Share
as_shares mode values = map (λ v. record { mode = mode; value = v }) values

rate_shares : RateMode → Option ℕ → List ℕ → Result
unfolding rate_parts fix_float_residue as_shares
rate_shares mode none weights = error no_rate
rate_shares mode (some zero) weights = error no_rate
rate_shares mode (some (suc n)) weights =
    ok (as_shares mode (fix_float_residue (suc n) (rate_parts (suc n) weights)))

-- A count of one, in the unit of a rate.
abbrev pub rate_unit : ℕ
rate_unit = 1000000

-- round(rate_value): a half goes to the even neighbour.
abbrev pub rounded : ℕ → ℕ
rounded rate =
    let whole = rate / rate_unit in
    let twice = 2 * (rate % rate_unit) in
    if ltb twice rate_unit || (twice == rate_unit && whole % 2 == 0) then whole else whole + 1

-- int(round(rate_value)) if rate_value else 0
pub count_total : Option ℕ → ℕ
count_total none = 0
count_total (some rate) = rounded rate

mode_shares : RateMode → Option ℕ → List ℕ → Result
unfolding rate_shares largest_remainder as_shares count_total
mode_shares eps rate weights = rate_shares eps rate weights
mode_shares per_day_gb rate weights = rate_shares per_day_gb rate weights
mode_shares count_interval rate weights =
    ok (as_shares count_interval (largest_remainder (count_total rate) weights))

-- weights defaults to the equal split.
unfoldable pub apportion_shares : RateMode → Option ℕ → ℕ → Option (List ℕ) → Result
unfolding mode_shares
apportion_shares mode rate workers given =
    let weights : List ℕ = elim given [ none ↦ replicate workers 1 | some ws ↦ ws ] in
    if workers == 0
    then error no_workers
    else if length weights == workers
    then mode_shares mode rate weights
    else error weights_mismatch
