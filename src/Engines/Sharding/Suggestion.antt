-- ===== src/Engines/Sharding/Suggestion.antt =====
-- What check_sharding accepts, and the fleet size that it suggests.
use stoker.Prelude.{
  ℕ, ◌<◌, ◌≡◌, refl, ap, ◌∙◌, inl, inr, min, max, Bool, true, false, Option, none, some, List, [],
  ◌∷◌, any, leb, ◌==◌, if◌then◌else◌, arith, Bool-cases,
}
use stoker.Engines.Apportion.{RateMode, eps, per_day_gb, count_interval}
use stoker.Engines.Sharding.{
  StanzaCount, Engine, eventgen, rawreplay, metrics, other, Factor, metrics_series, interval_counts,
  ShardingCheck, series_count, metrics_active_workers, passes, verdict, check_counts,
  check_rate_mode, check_engine, check_sharding,
}
use stoker.Engines.Sharding.Active.{is_unsplit, largest_count, count_interval_active_workers-eq-min}

abbrev counts_capacity : List StanzaCount → Option ℕ
counts_capacity cs = if any is_unsplit cs then none else some (largest_count cs)

abbrev mode_capacity : RateMode → Option (List StanzaCount) → Option ℕ
mode_capacity eps counts = none
mode_capacity per_day_gb counts = none
mode_capacity count_interval none = none
mode_capacity count_interval (some []) = none
mode_capacity count_interval (some (c ∷ cs)) = counts_capacity (c ∷ cs)

abbrev engine_capacity : Engine → RateMode → Option (List StanzaCount) → Option ℕ
engine_capacity metrics mode counts = some 1
engine_capacity rawreplay mode counts = none
engine_capacity eventgen mode counts = mode_capacity mode counts
engine_capacity other mode counts = mode_capacity mode counts

-- The number of workers that a spec can keep busy; none where no worker can starve.
abbrev pub capacity : Engine → RateMode → Option (List ℕ) → Option (List StanzaCount) → Option ℕ
capacity e mode (some dims) counts = some (series_count dims)
capacity e mode none counts = engine_capacity e mode counts

abbrev Accepts : Option ℕ → ℕ → ShardingCheck → Type 0
Accepts none workers check = check.ok ≡ true
Accepts (some c) workers check =
    (check.ok ≡ leb workers c)
    × (check.active_workers ≡ min workers c)
    × (check.suggested_workers ≡ (if leb workers c then none else some (max 1 c)))

verdict-Accepts :
    (f : Factor) (c w active : ℕ) → active ≡ min w c → Accepts (some c) w (verdict f active w)
unfolding verdict passes
verdict-Accepts f c w active e = ground arith

passes-Accepts : (w : ℕ) → Accepts none w (passes w)
unfolding passes
passes-Accepts w = refl

counts-Accepts :
    (c : StanzaCount) (cs : List StanzaCount) (w : ℕ)
    → Accepts (counts_capacity (c ∷ cs)) w (check_counts (some (c ∷ cs)) w)
unfolding check_counts
counts-Accepts c cs w = elim (Bool-cases (any is_unsplit (c ∷ cs))) [
  | inl e ↦
      rw (count_interval_active_workers-eq-min (c ∷ cs) w, e)
        (unfold verdict passes in ground arith)
  | inr e ↦
      rw (count_interval_active_workers-eq-min (c ∷ cs) w, e)
        (verdict-Accepts interval_counts (largest_count (c ∷ cs)) w _ refl)
]

modes-Accepts :
    (mode : RateMode) (counts : Option (List StanzaCount)) (w : ℕ)
    → Accepts (mode_capacity mode counts) w (check_rate_mode mode counts w)
unfolding check_rate_mode check_counts
modes-Accepts eps counts w = passes-Accepts w
modes-Accepts per_day_gb counts w = passes-Accepts w
modes-Accepts count_interval none w = passes-Accepts w
modes-Accepts count_interval (some []) w = passes-Accepts w
modes-Accepts count_interval (some (c ∷ cs)) w = counts-Accepts c cs w

-- For a fleet of at least two workers check_engine decides by the capacity.
engine-Accepts :
    (e : Engine) (mode : RateMode) (dims : Option (List ℕ)) (counts : Option (List StanzaCount))
    (w : ℕ)
    → Accepts (capacity e mode dims counts) w (check_engine e mode dims counts w)
unfolding check_engine metrics_active_workers
engine-Accepts e mode (some dims) counts w =
    verdict-Accepts metrics_series (series_count dims) w _ (omega arith)
engine-Accepts metrics mode none counts w =
    unfold series_count in verdict-Accepts metrics_series 1 w (min 1 w) (omega arith)
engine-Accepts rawreplay mode none counts w = passes-Accepts w
engine-Accepts eventgen mode none counts w = modes-Accepts mode counts w
engine-Accepts other mode none counts w = modes-Accepts mode counts w

abbrev pub within : Option ℕ → ℕ → Bool
within none r = true
within (some c) r = leb (max 1 r) (max 1 c)

ok-within :
    (c : Option ℕ) (r : ℕ) (check : ShardingCheck)
    → Accepts c (max 1 r) check
    → 1 < r
    → check.ok ≡ within c r
ok-within none r check a h = a
ok-within (some c) r check a h = ground arith

refused_by :
    (capacity : Option ℕ) (w : ℕ) (check : ShardingCheck)
    → Accepts capacity w check
    → check.ok ≡ false
    → (c : ℕ) × (capacity ≡ some c) × (check.suggested_workers ≡ some (max 1 c))
refused_by none w check a h = cc
refused_by (some c) w check a h = (c, refl, ground arith)

module _ (e : Engine) (mode : RateMode) (dims : Option (List ℕ))
    (counts : Option (List StanzaCount)) where
  -- A fleet is accepted exactly if it is within the capacity, or has one worker.
  check_sharding-ok_iff_within :
      (r : ℕ) → (check_sharding e mode r dims counts).ok ≡ within (capacity e mode dims counts) r
  unfolding check_sharding passes
  check_sharding-ok_iff_within r = elim (Bool-cases (max 1 r == 1)) [
    | inl one ↦ rw one (single (capacity e mode dims counts) one)
    | inr more ↦ rw more (
        ok-within (capacity e mode dims counts) r _ (engine-Accepts e mode dims counts (max 1 r))
          (ground arith))
  ]
    where
      single : (c : Option ℕ) → (max 1 r == 1) ≡ true → true ≡ within c r
      single none one = refl
      single (some c) one = let alone : max 1 r ≡ 1 = ground arith in ground arith

  refused-suggestion :
      (r : ℕ)
      → (check_sharding e mode r dims counts).ok ≡ false
      → (c : ℕ) × (capacity e mode dims counts ≡ some c)
        × ((check_sharding e mode r dims counts).suggested_workers ≡ some (max 1 c))
  unfolding check_sharding passes
  refused-suggestion r h = elim (Bool-cases (max 1 r == 1)) [
    | inl one ↦ cc (rw one at h)
    | inr more ↦
        let (c, known, suggested) =
          refused_by (capacity e mode dims counts) (max 1 r) _
            (engine-Accepts e mode dims counts (max 1 r)) (rw more at h) in
        (c, known, rw more suggested)
  ]

  -- A refused fleet is told a smaller size that is accepted, and no larger size than that one is.
  pub check_sharding-suggestion :
      (requested : ℕ)
      → (check_sharding e mode requested dims counts).ok ≡ false
      → (n : ℕ) × ((check_sharding e mode requested dims counts).suggested_workers ≡ some n)
        × (n < requested)
        × ((check_sharding e mode n dims counts).ok ≡ true)
        × ((m : ℕ) → n < m → (check_sharding e mode m dims counts).ok ≡ false)
  check_sharding-suggestion r h =
      let (c, known, suggested) = refused-suggestion r h in
      let at_size : (m : ℕ) → (check_sharding e mode m dims counts).ok ≡ leb (max 1 m) (max 1 c) =
        λ m. check_sharding-ok_iff_within m ∙ ap (λ o. within o m) known in
      (
        max 1 c,
        suggested,
        ground (arith, at_size r),
        at_size (max 1 c) ∙ ground arith,
        λ m larger. at_size m ∙ ground arith,
      )
