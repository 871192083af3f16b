-- ===== src/Lifecycle/StepDown.antt =====
-- The step down of the rate under backpressure, and its floor.
use stoker.Prelude.{
  ℕ, zero, suc, ◌*◌, ◌≤◌, ◌<◌, ◌≡◌, refl, sym, ap, ◌∙◌, inl, inr, false, Option, none, some, List,
  arith, String, ◌||◌, length, ◌==◌, Bool-cases, if_false,
}
use stoker.Engines.Apportion
use stoker.Lifecycle.Model.{is_terminal, Snapshot, Db, Result, ok, EventKind}
use stoker.Lifecycle.Rows.{append_event}
use stoker.Lifecycle.Apportionment.{build_share_list}
use stoker.Lifecycle.Operator.{rescale_run, rescaled_leases, unpriced}
use stoker.Lifecycle.Backpressure.{
  Settings, is_paced, is_below_floor, step_from, step_down_run, stepped, times, original_rate,
  with_original,
}

snapshot_of : Snapshot → Option (Result Db) → Snapshot
snapshot_of s (some (ok db)) = db.run.snapshot
snapshot_of s _ = s

-- The snapshot that a step leaves is the one that the rescaled rows have.
stepped_snapshot :
    (now : ℕ) (r : Apportion.Result) (k : List Apportion.Share → Db) (sn : Snapshot) (db' : Db)
    → ((shares : List Apportion.Share) → (k shares).run.snapshot ≡ sn)
    → stepped now (unpriced r k) ≡ some (ok db')
    → db'.run.snapshot ≡ sn
unfolding stepped snapshot_of
stepped_snapshot now (Apportion.error e) k sn db' same h = cc
stepped_snapshot now (Apportion.ok shares) k sn db' same h =
    sym (ap (snapshot_of sn) h) ∙ same shares

rescaled_snapshot :
    (now : ℕ) (rate : ℕ) (actor : String) (db db' : Db)
    → is_terminal db.run.state ≡ false
    → 0 < length db.leases
    → stepped now (rescale_run now (some rate) actor db) ≡ some (ok db')
    → db'.run.snapshot ≡ record db.run.snapshot { rate_value = some rate }
unfolding rescale_run
rescaled_snapshot now rate actor db db' t l h =
    stepped_snapshot now (build_share_list db.run.snapshot.rate_mode (some rate) (length db.leases))
      (λ shares. append_event now actor EventKind.rescaled (record db {
        run = record db.run { snapshot = record db.run.snapshot { rate_value = some rate } };
        leases = rescaled_leases shares db.leases;
      }))
      (record db.run.snapshot { rate_value = some rate }) db' (λ shares. refl)
      (if_false (λ x. stepped now x ≡ some (ok db'))
        (is_terminal db.run.state || length db.leases == 0) (ok db) _ (ground arith) h)

same_original :
    (o : Option ℕ) (current new_rate : ℕ)
    → 0 < current
    → original_rate (some (original_rate o current)) new_rate ≡ original_rate o current
same_original none zero new_rate c = absurd (omega arith)
same_original none (suc n) new_rate c = refl
same_original (some zero) zero new_rate c = absurd (omega arith)
same_original (some zero) (suc n) new_rate c = refl
same_original (some (suc m)) current new_rate c = refl

-- What a step from a rate leaves: the stepped rate, which is not below the floor, and the original rate.
pub record IsSteppedFrom (s : Settings) (current : ℕ) (before after : Snapshot) : Type 0 where
  pub from_rate : before.rate_value ≡ some current
  pub to_rate : after.rate_value ≡ some (times current s.step_factor)
  pub above_floor :
      original_rate before.backpressure_original_rate current
        * s.min_rate_fraction.num
        * s.step_factor.den
      ≤ current * s.step_factor.num * s.min_rate_fraction.den
  pub same_floor :
      original_rate after.backpressure_original_rate (times current s.step_factor)
      ≡ original_rate before.backpressure_original_rate current

step_from-floor :
    (now current : ℕ) (s : Settings) (db db' : Db)
    → is_terminal db.run.state ≡ false
    → 0 < length db.leases
    → 0 < current
    → db.run.snapshot.rate_value ≡ some current
    → step_from now s current db ≡ some (ok db')
    → IsSteppedFrom s current db.run.snapshot db'.run.snapshot
unfolding step_from
step_from-floor now current s db db' t l c r h =
    elim (Bool-cases (is_below_floor s original current)) [
      | inl below ↦ cc (rw below at h)
      | inr within ↦
          let same : db'.run.snapshot ≡ record started.run.snapshot { rate_value = some new_rate } =
            rescaled_snapshot now new_rate "supervisor" started db' t l (
              if_false (λ x. x ≡ some (ok db')) (is_below_floor s original current) none _ within
                h) in
          record {
            from_rate = r;
            to_rate = ap (λ (x : Snapshot). x.rate_value) same;
            above_floor = ground arith;
            same_floor =
                ap (λ (x : Snapshot). original_rate x.backpressure_original_rate new_rate) same
                ∙ same_original db.run.snapshot.backpressure_original_rate current new_rate c;
          }
    ]
  where
    original : ℕ
    original = original_rate db.run.snapshot.backpressure_original_rate current

    new_rate : ℕ
    new_rate = times current s.step_factor

    started : Db
    started = with_original original db

step_down_run_at :
    (now : ℕ) (s : Settings) (rate : Option ℕ) (db db' : Db)
    → is_terminal db.run.state ≡ false
    → 0 < length db.leases
    → db.run.snapshot.rate_value ≡ rate
    → step_down_run now s rate db ≡ some (ok db')
    → (current : ℕ) × IsSteppedFrom s current db.run.snapshot db'.run.snapshot
unfolding step_down_run
step_down_run_at now s none db db' t l r h = cc
step_down_run_at now s (some zero) db db' t l r h = cc
step_down_run_at now s (some (suc n)) db db' t l r h =
    elim (Bool-cases (is_paced db.run.snapshot.rate_mode)) [
      | inl paced ↦
          (suc n, step_from-floor now (suc n) s db db' t l (omega arith) r (rw paced at h))
      | inr counted ↦ cc (rw counted at h)
    ]

-- A step down that succeeds, of a run that has not ended and has leases, sets the run's rate times the
-- step factor as its rate. Before rounding this is at least the allowed fraction of the original rate,
-- which is the rate that the first step down has recorded, or at the first step the rate that it starts
-- from (after an operator's rescale that is not the launch rate). The original rate is recorded, so that
-- a next step is measured against the same one.
pub step_down_run-floor :
    (now : ℕ) (s : Settings) (db db' : Db)
    → is_terminal db.run.state ≡ false
    → 0 < length db.leases
    → step_down_run now s db.run.snapshot.rate_value db ≡ some (ok db')
    → (current : ℕ) × IsSteppedFrom s current db.run.snapshot db'.run.snapshot
step_down_run-floor now s db db' t l h =
    step_down_run_at now s db.run.snapshot.rate_value db db' t l refl h
