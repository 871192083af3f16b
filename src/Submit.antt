-- ===== src/Submit.antt =====
-- server/routes/api.py: the submit-time gate on a spec's per-worker share.
pub mod Hint
mod Examples
use stoker.Prelude.{ℕ, zero, suc, max, Option, none, some, List, [], ◌∷◌, replicate, ◌≡◌, refl}
use stoker.Engines.Apportion.{
  RateMode, eps, per_day_gb, count_interval, Share, Result, ok, error, apportion_shares,
}
use stoker.Lifecycle.Apportionment.{build_share_list}
use stoker.Engines.Ceilings.{Amount, Bounds, CeilingCheck, check_slice, unit}

pub largest_value : List Share → ℕ
largest_value [] = 0
largest_value (s ∷ ss) = max s.value (largest_value ss)

pub largest_share : Result → Option ℕ
unfolding largest_value
largest_share (ok shares) = some (largest_value shares)
largest_share (error e) = none

-- _per_worker_share: the largest share of the fleet. A rate that is absent or 0 has none.
unfoldable pub per_worker_share : RateMode → Option ℕ → ℕ → Option ℕ
unfolding largest_share build_share_list
per_worker_share count_interval rate workers = none
per_worker_share eps none workers = none
per_worker_share per_day_gb none workers = none
per_worker_share eps (some zero) workers = none
per_worker_share per_day_gb (some zero) workers = none
per_worker_share eps (some (suc n)) workers =
    largest_share (build_share_list eps (some (suc n)) (max 1 workers))
per_worker_share per_day_gb (some (suc n)) workers =
    largest_share (build_share_list per_day_gb (some (suc n)) (max 1 workers))

-- Gate 3 of run_spec: the share that the fleet's busiest worker would carry, against the ceilings.
unfoldable pub ceiling_gate : RateMode → Option ℕ → ℕ → Option Amount → Option Bounds → CeilingCheck
unfolding per_worker_share check_slice
ceiling_gate mode rate workers bytes ceilings =
    check_slice mode (per_worker_share mode rate workers) bytes ceilings
