-- ===== src/Lifecycle/Examples/Rates.antt =====
-- The shares after a rescale, a scale and a step down, at concrete runs.
use stoker.Prelude.{ℕ, ◌+◌, refl, none, some, arith}
use stoker.Engines.Apportion.{apportion_shares}
use stoker.Lifecycle.Model.{RunState, LeaseState, Db}
use stoker.Lifecycle.Operator.{rescale_run, scale_rows, scale_fleet, scale_checked, scale_run}
use stoker.Lifecycle.Rows.{call_driver}
use stoker.Lifecycle.Apportionment.{build_share_list}
use stoker.Lifecycle.Backpressure.{stepped, step_from, step_down_run}
use stoker.Lifecycle.Step.{kept}
use stoker.Lifecycle.Shares.{Holds, rescale_run-exact}
use stoker.Lifecycle.Scaling.{scale_run-exact}
use stoker.Lifecycle.StepDown.{IsSteppedFrom, step_down_run-floor}
use stoker.Lifecycle.Examples.{db_with, driver, settings}

abbrev running : Db
running = db_with RunState.running (some 2000000) LeaseState.running LeaseState.running

abbrev rescaled : Db
rescaled = kept running (rescale_run 9000000 (some 61) "ops" running)

rescale_run-exact_example : Holds 2 61 rescaled.leases
unfolding rescale_run build_share_list apportion_shares
rescale_run-exact_example =
    rescale_run-exact 9000000 (some 61) "ops" running rescaled refl (omega arith) (omega arith) refl

abbrev fresh_ids : ℕ → ℕ
fresh_ids slot = 900 + slot

abbrev scaled : Db
scaled = kept running (scale_run 9000000 driver 3 fresh_ids "ops" running)

scale_run-exact_example : Holds 3 100 scaled.leases
unfolding scale_run scale_checked scale_fleet scale_rows build_share_list apportion_shares
    call_driver
scale_run-exact_example =
    scale_run-exact 9000000 driver 3 fresh_ids "ops" running scaled refl (omega arith) refl

abbrev stepped_down : Db
stepped_down = elim (step_down_run 9000000 settings (some 100) running) [
  | some r ↦ kept running r
  | none ↦ running
]

step_down_run-floor_example :
    (current : ℕ) × IsSteppedFrom settings current running.run.snapshot stepped_down.run.snapshot
unfolding step_down_run step_from stepped rescale_run build_share_list apportion_shares
step_down_run-floor_example =
    step_down_run-floor 9000000 settings running stepped_down refl (omega arith) refl
