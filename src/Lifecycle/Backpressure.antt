-- ===== src/Lifecycle/Backpressure.antt =====
-- server/lifecycle.py: _check_backpressure and _step_down_for_backpressure.
-- Fractions of the settings are quotients of natural numbers; a stepped rate is rounded down to the
-- unit of the rate.
use stoker.Prelude.{
  ℕ, zero, suc, ◌+◌, ◌-◌, ◌*◌, ◌/◌, Bool, true, false, not, ◌&&◌, ◌||◌, Option, none, some, List,
  [], ◌∷◌, any, ltb, leb, ◌==◌, is_some, if◌then◌else◌,
}
use stoker.Engines.Apportion.{RateMode, eps, per_day_gb, count_interval}
use stoker.Lifecycle.Model.{
  RunState, Reason, is_live, Lease, Counters, Sample, EventKind, Event, Db, Result, ok, raised,
}
use stoker.Lifecycle.Rows.{append_event, transition_run}
use stoker.Lifecycle.Operator.{rescale_run}

-- num / den
pub record Fraction : Type 0 where
  pub num : ℕ
  pub den : ℕ

pub data Action : Type 0 where
  step_down drain_run : Action

pub record Settings : Type 0 where
  pub enabled : Bool
  pub min_failed_fraction : Fraction
  pub sustained : ℕ
  pub action : Action
  pub step_factor : Fraction
  pub min_rate_fraction : Fraction

abbrev pub value_or_zero : Option ℕ → ℕ
value_or_zero none = 0
value_or_zero (some n) = n

abbrev pub ok_of : Counters → ℕ
ok_of c = value_or_zero c.hec_2xx

abbrev pub failed_of : Counters → ℕ
failed_of c = value_or_zero c.hec_5xx + value_or_zero c.hec_timeouts

-- The counters of a slot's samples, the latest first.
unfoldable pub slot_counters : ℕ → List Sample → List Counters
slot_counters slot [] = []
slot_counters slot (s ∷ ss) =
    let rest = slot_counters slot ss in if s.sample_slot == slot then s.counters ∷ rest else rest

-- New successes and failures between a slot's last two samples; the counters are cumulative, and one
-- that fell counts nothing.
unfoldable pub slot_delta : List Counters → ℕ × ℕ
slot_delta [] = (0, 0)
slot_delta (c ∷ []) = (0, 0)
slot_delta (latest ∷ prev ∷ cs) = (ok_of latest - ok_of prev, failed_of latest - failed_of prev)

-- _recent_delivery_deltas
unfoldable pub recent_deltas : List Sample → List Lease → ℕ × ℕ
recent_deltas samples [] = (0, 0)
recent_deltas samples (l ∷ ls) =
    let (oks, fails) = recent_deltas samples ls in
    let (d_ok, d_fail) = slot_delta (slot_counters l.slot samples) in
    if is_live l.state then (d_ok + oks, d_fail + fails) else (oks, fails)

-- fail / attempts >= fraction, where anything was attempted
abbrev pub is_failing : Fraction → ℕ × ℕ → Bool
is_failing f d = ltb 0 (d.0 + d.1) && leb (f.num * (d.0 + d.1)) (d.1 * f.den)

-- _open_backpressure_since: the first detection after the last reset; the log lists the latest first.
unfoldable pub streak_event : EventKind → ℕ → Option ℕ → Option ℕ
streak_event EventKind.backpressure_detected ts none = some ts
streak_event EventKind.backpressure_detected ts (some since) = some since
streak_event EventKind.backpressure_cleared ts since = none
streak_event EventKind.backpressure_step_down ts since = none
streak_event _ ts since = since

unfoldable pub open_since : List Event → Option ℕ
open_since [] = none
open_since (e ∷ older) = streak_event e.kind e.ts (open_since older)

abbrev pub is_paced : RateMode → Bool
is_paced eps = true
is_paced per_day_gb = true
is_paced count_interval = false

-- snap.get("backpressure_original_rate") or current
abbrev pub original_rate : Option ℕ → ℕ → ℕ
original_rate none current = current
original_rate (some zero) current = current
original_rate (some (suc n)) current = suc n

abbrev pub times : ℕ → Fraction → ℕ
times rate f = rate * f.num / f.den

-- new_rate < floor, the two products compared exactly.
abbrev pub is_below_floor : Settings → ℕ → ℕ → Bool
is_below_floor s original current =
    ltb (current * s.step_factor.num * s.min_rate_fraction.den)
      (original * s.min_rate_fraction.num * s.step_factor.den)

abbrev pub with_original : ℕ → Db → Db
with_original original db = record db {
  run = record db.run {
    snapshot = record db.run.snapshot { backpressure_original_rate = some original };
  };
}

-- The rescaled run, marked; a rate that cannot be apportioned raises out of the tick.
unfoldable pub stepped : ℕ → Result Db → Option (Result Db)
stepped now (raised e) = some (raised e)
stepped now (ok db) = some (
    ok (
      append_event now "system" EventKind.backpressure_step_down
        (record db { run = record db.run { degraded = true } })))

-- _step_down_for_backpressure at a positive rate; none where a step cannot help.
unfoldable pub step_from : ℕ → Settings → ℕ → Db → Option (Result Db)
step_from now s current db =
    let original = original_rate db.run.snapshot.backpressure_original_rate current in
    let new_rate = times current s.step_factor in
    if is_below_floor s original current
    then none
    else stepped now (rescale_run now (some new_rate) "supervisor" (with_original original db))

unfoldable pub step_down_run : ℕ → Settings → Option ℕ → Db → Option (Result Db)
step_down_run now s none db = none
step_down_run now s (some zero) db = none
step_down_run now s (some (suc n)) db =
    if is_paced db.run.snapshot.rate_mode then step_from now s (suc n) db else none

abbrev pub flag_target_red : Db → Db
flag_target_red db = record db { target_red = true }

unfoldable pub drain_for_backpressure : ℕ → Db → Db
drain_for_backpressure now db =
    flag_target_red
      (transition_run now RunState.draining (some Reason.backpressure_drain) "system" db)

abbrev pub stepped_or_drained : ℕ → Db → Option (Result Db) → Result Db
stepped_or_drained now db none = ok (drain_for_backpressure now db)
stepped_or_drained now db (some r) = r

unfoldable pub act : ℕ → Settings → Action → Db → Result Db
act now s step_down db =
    stepped_or_drained now db (step_down_run now s db.run.snapshot.rate_value db)
act now s drain_run db = ok (drain_for_backpressure now db)

-- A failing tick: the first starts the clock, a sustained streak acts.
unfoldable pub failing_tick : ℕ → Settings → Db → Option ℕ → Result Db
failing_tick now s db none = ok (append_event now "system" EventKind.backpressure_detected db)
failing_tick now s db (some since) =
    if leb s.sustained (now - since) then act now s s.action db else ok db

unfoldable pub healthy_tick : ℕ → Db → Option ℕ → Db
healthy_tick now db none = db
healthy_tick now db (some since) = append_event now "system" EventKind.backpressure_cleared db

abbrev pub delivers : RunState → Bool
delivers RunState.running = true
delivers RunState.releasing = true
delivers _ = false

unfoldable pub check_backpressure : ℕ → Settings → Db → Result Db
check_backpressure now s db =
    if not s.enabled
      || not (delivers db.run.state)
      || not (is_some db.run.t0)
      || not (any (λ (l : Lease). is_live l.state) db.leases)
    then ok db
    else if is_failing s.min_failed_fraction (recent_deltas db.samples db.leases)
    then failing_tick now s db (open_since db.events)
    else ok (healthy_tick now db (open_since db.events))
