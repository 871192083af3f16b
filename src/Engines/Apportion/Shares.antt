-- ===== src/Engines/Apportion/Shares.antt =====
-- The shares that apportion_shares returns.
use stoker.Prelude.{
  ℕ, zero, suc, ◌+◌, ◌-◌, ◌*◌, ◌/◌, ◌≤◌, ◌<◌, ◌≡◌, refl, ap, ◌∙◌, inl, inr, Option, some, none,
  List, [], ◌∷◌, map, length, sum, replicate, arith, Bool-cases, length-map, ◌==◌, if◌then◌else◌,
  or_else,
}
use stoker.Engines.Apportion.{
  RateMode, eps, per_day_gb, count_interval, Share, Result, ok, error, no_workers, weights_mismatch,
  effective_weights, floor_part, rate_parts, add_to_last, fix_float_residue, as_shares, rate_shares,
  rate_unit, rounded, count_total, mode_shares, apportion_shares,
}
use stoker.Engines.Apportion.Totals.{
  floors_within, effective_weights_pos, length-effective_weights, largest_remainder_total,
}

abbrev pub values : List Share → List ℕ
values = map (λ s. s.value)

abbrev AllMode : RateMode → List Share → Type 0
AllMode mode [] = Unit {0}
AllMode mode (s ∷ ss) = (s.mode ≡ mode) × AllMode mode ss

values-as_shares : (mode : RateMode) (vs : List ℕ) → values (as_shares mode vs) ≡ vs
unfolding as_shares
values-as_shares mode [] = refl
values-as_shares mode (v ∷ vs) = ap (λ xs. v ∷ xs) (values-as_shares mode vs)

as_shares-AllMode : (mode : RateMode) (vs : List ℕ) → AllMode mode (as_shares mode vs)
unfolding as_shares
as_shares-AllMode mode [] = tt
as_shares-AllMode mode (v ∷ vs) = (refl, as_shares-AllMode mode vs)

sum-add_to_last : (d x : ℕ) (xs : List ℕ) → sum (add_to_last d (x ∷ xs)) ≡ sum (x ∷ xs) + d
unfolding add_to_last
sum-add_to_last d x [] = omega arith
sum-add_to_last d x (y ∷ ys) = omega (arith, sum-add_to_last d y ys)

length-add_to_last : (d : ℕ) (xs : List ℕ) → length (add_to_last d xs) ≡ length xs
unfolding add_to_last
length-add_to_last d [] = refl
length-add_to_last d (x ∷ []) = refl
length-add_to_last d (x ∷ y ∷ ys) = omega (arith, length-add_to_last d (y ∷ ys))

sum-fix_float_residue :
    (t : ℕ) (xs : List ℕ) → 0 < length xs → sum xs ≤ t → sum (fix_float_residue t xs) ≡ t
unfolding fix_float_residue
sum-fix_float_residue t [] h b = absurd (omega arith)
sum-fix_float_residue t (x ∷ xs) h b = omega (arith, sum-add_to_last (t - sum (x ∷ xs)) x xs)

rate_parts-le : (t : ℕ) (ws : List ℕ) → 0 < length ws → sum (rate_parts t ws) ≤ t
unfolding rate_parts
rate_parts-le t ws h =
    unfold floor_part in (floors_within t (effective_weights ws) (effective_weights_pos ws h)).0

length-rate_parts : (t : ℕ) (ws : List ℕ) → length (rate_parts t ws) ≡ length ws
unfolding rate_parts
length-rate_parts t ws =
    length-map (λ w. t * w / sum (effective_weights ws)) (effective_weights ws)
    ∙ length-effective_weights ws

-- What the values of the shares add up to: the rate, or the whole count that it is rounded to (0 where
-- it is absent).
abbrev pub mode_total : RateMode → Option ℕ → ℕ
mode_total eps rate = or_else rate 0
mode_total per_day_gb rate = or_else rate 0
mode_total count_interval rate = count_total rate

-- A count is the nearest whole number to its rate.
rounded_near :
    (rate : ℕ)
    → (2 * (rounded rate * rate_unit) ≤ 2 * rate + rate_unit)
      × (2 * rate ≤ 2 * (rounded rate * rate_unit) + rate_unit)
rounded_near rate = ground arith

-- What a successful apportionment promises.
pub record Apportioned (mode : RateMode) (total workers : ℕ) (shares : List Share) : Type 0 where
  pub one_each : length shares ≡ workers
  pub exact : sum (values shares) ≡ total
  pub in_mode : AllMode mode shares

as_shares-Apportioned :
    (mode : RateMode) (t n : ℕ) (vs : List ℕ)
    → length vs ≡ n
    → sum vs ≡ t
    → Apportioned mode t n (as_shares mode vs)
as_shares-Apportioned mode t n vs l s = record {
  one_each =
      unfold as_shares in
      length-map (λ v. let s : Share = record { mode = mode; value = v } in s) vs ∙ l;
  exact = ap sum (values-as_shares mode vs) ∙ s;
  in_mode = as_shares-AllMode mode vs;
}

fixed-Apportioned :
    (mode : RateMode) (t : ℕ) (ws : List ℕ)
    → 0 < length ws
    → Apportioned mode t (length ws) (as_shares mode (fix_float_residue t (rate_parts t ws)))
fixed-Apportioned mode t ws h =
    as_shares-Apportioned mode t (length ws) (fix_float_residue t (rate_parts t ws))
      (unfold fix_float_residue in length-add_to_last _ (rate_parts t ws) ∙ length-rate_parts t ws)
      (sum-fix_float_residue t (rate_parts t ws) (omega (arith, length-rate_parts t ws))
        (rate_parts-le t ws h))

Yields : (mode : RateMode) (total workers : ℕ) → Result → Type 0
Yields mode total workers r =
    (shares : List Share) → r ≡ ok shares → Apportioned mode total workers shares

ok-Yields :
    (mode : RateMode) (t n : ℕ) (shares : List Share)
    → Apportioned mode t n shares
    → Yields mode t n (ok shares)
unfolding Yields
ok-Yields mode t n shares a other e = rw (← shares_eq) a
  where
    shares_of : Result → List Share
    shares_of (ok ss) = ss
    shares_of _ = []

    shares_eq : shares ≡ other
    shares_eq = ap shares_of e

rate_shares-Yields :
    (mode : RateMode) (rate : Option ℕ) (ws : List ℕ)
    → 0 < length ws
    → Yields mode (or_else rate 0) (length ws) (rate_shares mode rate ws)
unfolding rate_shares Yields
rate_shares-Yields mode none ws h shares e = cc
rate_shares-Yields mode (some zero) ws h shares e = cc
rate_shares-Yields mode (some (suc n)) ws h shares e =
    ok-Yields mode (suc n) (length ws) _ (fixed-Apportioned mode (suc n) ws h) shares e

mode_shares-Yields :
    (mode : RateMode) (rate : Option ℕ) (ws : List ℕ)
    → 0 < length ws
    → Yields mode (mode_total mode rate) (length ws) (mode_shares mode rate ws)
unfolding mode_shares
mode_shares-Yields eps rate ws h = rate_shares-Yields eps rate ws h
mode_shares-Yields per_day_gb rate ws h = rate_shares-Yields per_day_gb rate ws h
mode_shares-Yields count_interval rate ws h =
    ok-Yields count_interval (count_total rate) (length ws) _ (
      as_shares-Apportioned count_interval (count_total rate) (length ws) _
        (largest_remainder_total (count_total rate) ws h).1
        (largest_remainder_total (count_total rate) ws h).0)

checked_shares :
    (mode : RateMode) (rate : Option ℕ) (workers : ℕ) (ws : List ℕ) (shares : List Share)
    → (if workers == 0
        then error no_workers
        else if length ws == workers
        then mode_shares mode rate ws
        else error weights_mismatch)
      ≡ ok shares
    → Apportioned mode (mode_total mode rate) workers shares
checked_shares mode rate workers ws shares e = elim (Bool-cases (workers == 0)) [
  | inl none_asked ↦ cc (rw none_asked at e)
  | inr some_asked ↦ elim (Bool-cases (length ws == workers)) [
    | inl same ↦
        let size : length ws ≡ workers = ground arith in
        rw (← size) (
          unfold Yields in
          mode_shares-Yields mode rate ws (ground arith) shares (rw same at (rw some_asked at e)))
    | inr differ ↦ cc (rw differ at (rw some_asked at e))
  ]
]

-- Whenever apportion_shares succeeds, in every rate mode and for any weights, there is one share
-- for each worker, every share has the key of the rate mode, and the values sum to exactly the
-- rate, which for count_interval is first rounded to a whole count (0 for an absent one).
pub apportion_shares-exact :
    (mode : RateMode) (rate : Option ℕ) (workers : ℕ) (given : Option (List ℕ))
    (shares : List Share)
    → apportion_shares mode rate workers given ≡ ok shares
    → Apportioned mode (mode_total mode rate) workers shares
unfolding apportion_shares
apportion_shares-exact mode rate workers none shares e =
    checked_shares mode rate workers (replicate workers 1) shares e
apportion_shares-exact mode rate workers (some ws) shares e =
    checked_shares mode rate workers ws shares e
