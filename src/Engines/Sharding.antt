-- ===== src/Engines/Sharding.antt =====
-- server/engines/sharding.py: how many workers of a fleet receive work.
-- The pack's eventgen.conf is read by configparser: the counts of its stanzas are an argument,
-- absent where the file cannot be read. The details' wording is not modelled.
pub mod Active
pub mod Suggestion
use stoker.Prelude.{
  ℕ, zero, suc, ◌+◌, ◌*◌, min, max, Bool, true, false, ◌||◌, Option, none, some, List, [], ◌∷◌,
  ◌++◌, length, replicate, any, count_if, ltb, leb, ◌==◌, if◌then◌else◌, ◌≡◌, refl,
}
use stoker.Engines.Apportion.{RateMode, eps, per_day_gb, count_interval, largest_remainder}

-- The number of values that each dimension of a metrics pack declares; a malformed or empty
-- dimension declares 0 and is skipped.
pub series_count : List ℕ → ℕ
series_count [] = 1
series_count (zero ∷ ds) = series_count ds
series_count (suc n ∷ ds) = suc n * series_count ds

pub metrics_active_workers : ℕ → ℕ → ℕ
metrics_active_workers series workers = min series workers

-- int(count) of a stanza: not declared, below 0 (the whole sample every interval), or a number.
pub data StanzaCount : Type 0 where
  undeclared negative : StanzaCount
  declared : ℕ → StanzaCount

pub is_undeclared : StanzaCount → Bool
is_undeclared undeclared = true
is_undeclared _ = false

-- active[slot] = True where the part is positive
pub mark : List ℕ → List Bool → List Bool
mark [] active = active
mark (p ∷ ps) [] = []
mark (p ∷ ps) (a ∷ flags) = (ltb 0 p || a) ∷ mark ps flags

abbrev pub set_true : Bool → Bool
set_true b = b

pub scan_counts : List StanzaCount → ℕ → List Bool → ℕ
unfolding mark
scan_counts [] workers active = count_if set_true active
scan_counts (undeclared ∷ cs) workers active = workers
scan_counts (negative ∷ cs) workers active = workers
scan_counts (declared total ∷ cs) workers active =
    scan_counts cs workers (mark (largest_remainder total (replicate workers 1)) active)

unfoldable pub count_interval_active_workers : List StanzaCount → ℕ → ℕ
unfolding is_undeclared scan_counts largest_remainder
count_interval_active_workers counts workers =
    if workers == 0
    then 0
    else if any is_undeclared counts
    then workers
    else scan_counts counts workers (replicate workers false)

-- spec.engine after strip; any other name is an engine of its own.
pub data Engine : Type 0 where
  eventgen rawreplay metrics other : Engine

pub data Factor : Type 0 where
  metrics_series interval_counts : Factor

pub record ShardingCheck : Type 0 where
  pub ok : Bool
  pub active_workers : ℕ
  pub total_workers : ℕ
  pub suggested_workers : Option ℕ
  pub limiting_factor : Option Factor

pub passes : ℕ → ShardingCheck
passes workers = record {
  ok = true;
  active_workers = workers;
  total_workers = workers;
  suggested_workers = none;
  limiting_factor = none;
}

pub verdict : Factor → ℕ → ℕ → ShardingCheck
unfolding passes
verdict factor active workers = if leb workers active then passes workers else record {
  ok = false;
  active_workers = active;
  total_workers = workers;
  suggested_workers = some (max 1 active);
  limiting_factor = some factor;
}

-- The counts of several packs, or none as soon as one conf cannot be read.
pub concat_counts : List (Option (List StanzaCount)) → Option (List StanzaCount)
concat_counts [] = some []
concat_counts (none ∷ packs) = none
concat_counts (some cs ∷ packs) = elim (concat_counts packs) [
  | none ↦ none
  | some ds ↦ some (cs ++ ds)
]

pub check_counts : Option (List StanzaCount) → ℕ → ShardingCheck
unfolding verdict passes count_interval_active_workers
check_counts none workers = passes workers
check_counts (some []) workers = passes workers
check_counts (some (c ∷ cs)) workers =
    verdict interval_counts (count_interval_active_workers (c ∷ cs) workers) workers

pub check_rate_mode : RateMode → Option (List StanzaCount) → ℕ → ShardingCheck
unfolding check_counts passes
check_rate_mode count_interval counts workers = check_counts counts workers
check_rate_mode eps counts workers = passes workers
check_rate_mode per_day_gb counts workers = passes workers

pub check_engine :
    Engine → RateMode → Option (List ℕ) → Option (List StanzaCount) → ℕ → ShardingCheck
unfolding verdict passes check_rate_mode series_count metrics_active_workers
check_engine e mode (some dims) counts workers =
    verdict metrics_series (metrics_active_workers (series_count dims) workers) workers
check_engine metrics mode none counts workers =
    verdict metrics_series (metrics_active_workers (series_count []) workers) workers
check_engine rawreplay mode none counts workers = passes workers
check_engine eventgen mode none counts workers = check_rate_mode mode counts workers
check_engine other mode none counts workers = check_rate_mode mode counts workers

-- dims: the dimensions of the pack's metricgen config, where it has one.
unfoldable pub check_sharding :
    Engine → RateMode → ℕ → Option (List ℕ) → Option (List StanzaCount) → ShardingCheck
unfolding check_engine passes
check_sharding engine mode requested dims counts =
    let workers = max 1 requested in
    if workers == 1 then passes 1 else check_engine engine mode dims counts workers
