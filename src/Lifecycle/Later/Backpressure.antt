-- ===== src/Lifecycle/Later/Backpressure.antt =====
-- How _check_backpressure moves the run row.
use stoker.Prelude.{
  ℕ, zero, suc, ◌≤◌, ◌≡◌, refl, Bool, true, false, Option, none, some, arith, is_some, ◌||◌, not,
  if◌then◌else◌, any, if_cases,
}
use stoker.Lifecycle.Model.{
  RunState, Reason, is_terminal, is_live, Run, Db, Lease, Result, ok, raised,
}
use stoker.Lifecycle.Backpressure.{
  Settings, Action, step_down, drain_run, stepped, step_from, step_down_run, drain_for_backpressure,
  stepped_or_drained, act, failing_tick, healthy_tick, open_since, times, with_original,
  original_rate, check_backpressure, delivers,
}
use stoker.Lifecycle.Later.{phase, Later, Later-refl, transition-Later}
use stoker.Lifecycle.Later.Operators.{
  ResultLater, was_raised, moved, guarded-Later, before-ResultLater, rescale_run-Later,
}
use stoker.Lifecycle.Later.Parts.{SameLife-Later}

degraded-Later : {r s : Run} → Later r s → Later r (record s { degraded = true })
degraded-Later h = record { forward = h.forward; t0_once = h.t0_once; ended_stays = h.ended_stays }

-- What the backpressure check does, from the run that it sees.
drain_for_backpressure-Later :
    (now : ℕ) (db : Db)
    → is_terminal db.run.state ≡ false
    → phase db.run.state ≤ 5
    → Later db.run (drain_for_backpressure now db).run
unfolding drain_for_backpressure
drain_for_backpressure-Later now db h p =
    transition-Later now RunState.draining (some Reason.backpressure_drain) "system" db h p

data StepLater (r : Run) : Option (Result Db) → Type 0 where
  no_step : StepLater r none
  stepped_down : (x : Result Db) → ResultLater r x → StepLater r (some x)

stepped-Later : (now : ℕ) {r : Run} (x : Result Db) → ResultLater r x → StepLater r (stepped now x)
unfolding stepped
stepped-Later now (raised e) h = stepped_down _ (was_raised e)
stepped-Later now (ok _) (moved db h) = stepped_down _ (moved _ (degraded-Later h))

guarded_step :
    {r : Run} (b : Bool) {x y : Option (Result Db)}
    → StepLater r x
    → StepLater r y
    → StepLater r (if b then x else y)
guarded_step true hx hy = hx
guarded_step false hx hy = hy

step_from-Later :
    (now : ℕ) (s : Settings) (current : ℕ) (db : Db) → StepLater db.run (step_from now s current db)
unfolding step_from
step_from-Later now s current db = guarded_step _ no_step (
    stepped-Later now _ (
      before-ResultLater
        (SameLife-Later (record {
          same_state = refl;
          same_t0 = refl;
          same_end_reason = refl;
          same_ended_at = refl;
        }))
        _
        (rescale_run-Later now (some (times current s.step_factor)) "supervisor"
          (with_original (original_rate db.run.snapshot.backpressure_original_rate current) db))))

step_down_run-Later :
    (now : ℕ) (s : Settings) (o : Option ℕ) (db : Db) → StepLater db.run (step_down_run now s o db)
unfolding step_down_run
step_down_run-Later now s none db = no_step
step_down_run-Later now s (some zero) db = no_step
step_down_run-Later now s (some (suc n)) db =
    guarded_step _ (step_from-Later now s (suc n) db) no_step

stepped_or_drained-Later :
    (now : ℕ) (db : Db) (x : Option (Result Db))
    → is_terminal db.run.state ≡ false
    → phase db.run.state ≤ 5
    → StepLater db.run x
    → ResultLater db.run (stepped_or_drained now db x)
stepped_or_drained-Later now db none h p l = moved _ (drain_for_backpressure-Later now db h p)
stepped_or_drained-Later now db (some _) h p (stepped_down x l) = l

act-Later :
    (now : ℕ) (s : Settings) (a : Action) (db : Db)
    → is_terminal db.run.state ≡ false
    → phase db.run.state ≤ 5
    → ResultLater db.run (act now s a db)
unfolding act
act-Later now s step_down db h p =
    stepped_or_drained-Later now db _ h p (step_down_run-Later now s db.run.snapshot.rate_value db)
act-Later now s drain_run db h p = moved _ (drain_for_backpressure-Later now db h p)

failing_tick-Later :
    (now : ℕ) (s : Settings) (db : Db) (o : Option ℕ)
    → is_terminal db.run.state ≡ false
    → phase db.run.state ≤ 5
    → ResultLater db.run (failing_tick now s db o)
unfolding failing_tick
failing_tick-Later now s db none h p = moved _ (Later-refl db.run)
failing_tick-Later now s db (some since) h p =
    guarded-Later _ (act-Later now s s.action db h p) (moved db (Later-refl db.run))

run-healthy_tick : (now : ℕ) (db : Db) (o : Option ℕ) → (healthy_tick now db o).run ≡ db.run
unfolding healthy_tick
run-healthy_tick now db none = refl
run-healthy_tick now db (some since) = refl

healthy_tick-Later : (now : ℕ) (db : Db) (o : Option ℕ) → Later db.run (healthy_tick now db o).run
unfolding healthy_tick
healthy_tick-Later now db none = Later-refl db.run
healthy_tick-Later now db (some since) = Later-refl db.run

delivering :
    (s : RunState) (a b c : Bool)
    → (a || not (delivers s) || b || c) ≡ false
    → (is_terminal s ≡ false) × (phase s ≤ 5)
delivering s a b c h = ground arith

pub check_backpressure-Later :
    (now : ℕ) (s : Settings) (db : Db) → ResultLater db.run (check_backpressure now s db)
unfolding check_backpressure
check_backpressure-Later now s db =
    if_cases (λ x. ResultLater db.run x)
      (not s.enabled
        || not (delivers db.run.state)
        || not (is_some db.run.t0)
        || not (any (λ (l : Lease). is_live l.state) db.leases))
      _ _ (λ h. moved db (Later-refl db.run))
      λ h.
        let facts =
          delivering db.run.state (not s.enabled) (not (is_some db.run.t0))
            (not (any (λ (l : Lease). is_live l.state) db.leases)) h in
        guarded-Later _ (failing_tick-Later now s db (open_since db.events) facts.0 facts.1)
          (moved _ (healthy_tick-Later now db (open_since db.events)))
