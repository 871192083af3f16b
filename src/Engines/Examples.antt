-- ===== src/Engines/Examples.antt =====
-- Runs of the engines' arithmetic, and their theorems at concrete inputs.
use stoker.Prelude.{
  ℕ, ◌+◌, ◌*◌, ◌≤◌, ◌≡◌, refl, ◌⊎◌, false, Option, none, some, List, [], ◌∷◌, map, sum, replicate,
  get_elem?, any, min, if◌then◌else◌, arith,
}
use mathlib.Core.Option
use stoker.Engines.Apportion
use stoker.Engines.Apportion.{
  RateMode, eps, per_day_gb, count_interval, Share, largest_remainder, effective_weights,
  floor_part, apportion_shares,
}
use stoker.Engines.Apportion.Parts.{largest_remainder_quota}
use stoker.Engines.Apportion.Shares.{Apportioned, apportion_shares-exact}
use stoker.Engines.Ceilings.{
  Layer, Key, Settings, Bounds, builtin, resolve_ceilings, Amount, eps_limit, gb_day_limit,
  check_slice, eps_to_gb_day, unit,
}
use stoker.Engines.Ceilings.Layers.{resolved, resolve_ceilings-precedence}
use stoker.Engines.Ceilings.Verdict.{eps_of, gb_day_of, Explains, check_slice-suggestion}
use stoker.Engines.Sharding.{eventgen, StanzaCount, declared, count_interval_active_workers}
use stoker.Engines.Sharding.Active.{is_unsplit, largest_count, count_interval_active_workers-eq-min}

abbrev four_weights : List ℕ
four_weights = 2 ∷ 1 ∷ 3 ∷ 1 ∷ []

largest_remainder_four : largest_remainder 10 four_weights ≡ 3 ∷ 2 ∷ 4 ∷ 1 ∷ []
unfolding largest_remainder
largest_remainder_four = refl

abbrev thirds : List Share
thirds = map (λ v. record { mode = eps; value = v }) (33 ∷ 33 ∷ 34 ∷ [])

third_shares : apportion_shares eps (some 100) 3 none ≡ Apportion.ok thirds
unfolding apportion_shares
third_shares = refl

largest_remainder_quota_example :
    (part : ℕ) × (get_elem? (largest_remainder 10 four_weights) 2 ≡ some part)
    × (floor_part 10 (sum (effective_weights four_weights)) 3 ≤ part)
    × (part ≤ floor_part 10 (sum (effective_weights four_weights)) 3 + 1)
unfolding effective_weights
largest_remainder_quota_example = largest_remainder_quota 10 four_weights 2 3 refl

-- A count of two and a half is two, which both workers share.
half_count :
    apportion_shares count_interval (some 2500000) 2 none
    ≡ Apportion.ok (replicate 2 (record { mode = count_interval; value = 1 }))
unfolding apportion_shares
half_count = refl

apportion_shares-exact_example : Apportioned eps 100 3 thirds
apportion_shares-exact_example = apportion_shares-exact eps (some 100) 3 none thirds third_shares

abbrev no_layer : Layer
no_layer = record { max_gb_day = none; max_eps = none }

abbrev lifted : Settings
lifted = record {
  globals = record { max_gb_day = none; max_eps = some (8000 * unit) };
  per_engine = record { engine = eventgen; key = Key.gb_day_key; value = 0 } ∷ [];
}

resolve_ceilings-precedence_example :
    resolve_ceilings eventgen false (some lifted) (some no_layer)
    ≡ Option.map
        (λ table. record {
          gb_day = resolved eventgen (some lifted) (some no_layer) table Key.gb_day_key;
          eps = resolved eventgen (some lifted) (some no_layer) table Key.eps_key;
        })
        (builtin eventgen false)
resolve_ceilings-precedence_example =
    resolve_ceilings-precedence eventgen false (some lifted) (some no_layer)

abbrev fleet_bounds : Bounds
fleet_bounds = record { gb_day = some 250; eps = some 10000 }

abbrev event_bytes : Option Amount
event_bytes = some (record { num = 500; den = 1 })

check_slice-suggestion_example :
    (((check_slice eps (some 40000) event_bytes (some fleet_bounds)).limiting_factor
        ≡ some eps_limit)
      × Explains
          (eps_of eps 40000 event_bytes)
          (some 10000)
          (check_slice eps (some 40000) event_bytes (some fleet_bounds)))
    ⊎ (((check_slice eps (some 40000) event_bytes (some fleet_bounds)).limiting_factor
          ≡ some gb_day_limit)
        × Explains
            (gb_day_of eps 40000 event_bytes)
            (some 250)
            (check_slice eps (some 40000) event_bytes (some fleet_bounds)))
unfolding check_slice eps_to_gb_day
check_slice-suggestion_example =
    check_slice-suggestion eps 40000 event_bytes fleet_bounds (omega arith) (omega arith) refl

abbrev stanza_counts : List StanzaCount
stanza_counts = declared 6 ∷ declared 2 ∷ []

count_interval_active_workers_six : count_interval_active_workers stanza_counts 10 ≡ 6
unfolding count_interval_active_workers
count_interval_active_workers_six = refl

count_interval_active_workers-eq-min_example :
    count_interval_active_workers stanza_counts 10
    ≡ (if any is_unsplit stanza_counts then 10 else min 10 (largest_count stanza_counts))
count_interval_active_workers-eq-min_example = count_interval_active_workers-eq-min stanza_counts 10
