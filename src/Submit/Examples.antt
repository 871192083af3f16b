-- ===== src/Submit/Examples.antt =====
-- A fleet of two workers that the submit gate refuses.
use stoker.Prelude.{ℕ, ◌*◌, ◌≤◌, ◌≡◌, refl, none, some, arith}
use stoker.Engines.Apportion.{eps, apportion_shares}
use stoker.Lifecycle.Apportionment.{build_share_list}
use stoker.Engines.Ceilings.{unit}
use stoker.Submit.{per_worker_share, ceiling_gate}
use stoker.Submit.Hint.{bounded_eps, ceiling_gate_hint_too_small}

-- Four workers would carry 12,000 events per second each, over the bound of 10,000; two are suggested.
ceiling_gate_hint_too_small_example :
    (n : ℕ) × ((ceiling_gate eps
        (some (48000 * unit))
        4
        none
        (some (bounded_eps (10000 * unit) none))).suggested_workers
      ≡ some n)
    × (n ≤ 4)
unfolding per_worker_share build_share_list apportion_shares
ceiling_gate_hint_too_small_example =
    ceiling_gate_hint_too_small (48000 * unit) 4 (12000 * unit) (10000 * unit) none (omega arith)
      (omega arith) refl (omega arith) (omega arith)
