-- ===== src/Lifecycle/Later/Ticks.antt =====
-- How the supervisor's policies and the operator's operations move the run row.
use stoker.Prelude.{
  ℕ, ◌-◌, ◌≤◌, ◌≡◌, refl, Bool, true, false, Option, none, some, arith, is_some, ◌&&◌, not,
  if◌then◌else◌, any, ltb, if_cases,
}
use stoker.Lifecycle.Model.{
  RunState, Reason, is_terminal, is_ready, is_pending, Run, Db, Lease, Driver, Result, ok, raised,
  Error, Error, provision_window,
}
use stoker.Lifecycle.Rows.{transition_run, call_driver}
use stoker.Lifecycle.Release.{evaluate_release}
use stoker.Lifecycle.Backpressure.{Settings}
use stoker.Lifecycle.Supervisor.{
  lapse_stale_leases, destroy_fleet, is_provisioning, fail_run, released, check_provisioning,
  check_duration, check_auto_abort, reap, reap_draining, check_policies, wind_down,
  after_backpressure, broken_off, after_provisioning, supervise_run,
}
use stoker.Lifecycle.Later.{phase, Later, Later-refl, Later-trans, Later-from, transition-Later}
use stoker.Lifecycle.Later.Backpressure.{check_backpressure-Later}
use stoker.Lifecycle.Later.Operators.{ResultLater, moved}
use stoker.Lifecycle.Later.Parts.{
  SameLife, SameLife-Later, evaluate_release-Later, maybe_complete_run-Later,
}

pub run-destroy_fleet :
    (now : ℕ) (d : Option Driver) (db : Db) → (destroy_fleet now d db).run ≡ db.run
unfolding destroy_fleet call_driver
run-destroy_fleet now none db = refl
run-destroy_fleet now (some d) db = ground arith

fail_run-Later :
    (now : ℕ) (r : Reason) (d : Option Driver) (db : Db)
    → is_terminal db.run.state ≡ false
    → phase db.run.state ≤ 6
    → Later db.run (fail_run now r d db).run
unfolding fail_run
fail_run-Later now r d db h p =
    rw (run-destroy_fleet now d (transition_run now RunState.failed (some r) "system" db))
      (transition-Later now RunState.failed (some r) "system" db h p)

pub phase_bound : (s : RunState) → phase s ≤ 6
phase_bound s = ground arith

provisioning_facts :
    (s : RunState) (b c : Bool) → (is_provisioning s && b && c) ≡ true → is_terminal s ≡ false
provisioning_facts s b c h = ground arith

-- The two parts of what a check leaves: its result, and the rows where it raises.
data PairLater (r : Run) : Result Db × Db → Type 0 where
  both : (db : Db) → Later r db.run → PairLater r (ok db, db)
  left : (e : Error) (db : Db) → Later r db.run → PairLater r (raised e, db)

guarded_pair :
    {r : Run} (b : Bool) {x y : Result Db × Db}
    → PairLater r x
    → PairLater r y
    → PairLater r (if b then x else y)
guarded_pair true hx hy = hx
guarded_pair false hx hy = hy

released-Later :
    {r : Run} (x : Result Bool) (db : Db) → Later r db.run → PairLater r (released (x, db))
released-Later (ok b) db h = both db h
released-Later (raised e) db h = left e db h

check_provisioning-Later :
    (now : ℕ) (d : Option Driver) (db : Db) → PairLater db.run (check_provisioning now d db)
unfolding check_provisioning
check_provisioning-Later now d db =
    if_cases (λ x. PairLater db.run x)
      (is_provisioning db.run.state
        && not (is_some db.run.t0)
        && ltb provision_window (now - db.run.created_at))
      (if any (λ (l : Lease). is_ready l.state) db.leases
        then released (evaluate_release now true db)
        else if not (any (λ (l : Lease). is_pending l.state) db.leases)
        then (let failed_db = fail_run now Reason.provision_timeout d db in
            (ok failed_db, failed_db))
        else (ok db, db))
      (ok db, db)
      (λ h.
        guarded_pair _
          (released-Later (evaluate_release now true db).0 (evaluate_release now true db).1
            (evaluate_release-Later now true db))
          (guarded_pair _
            (both _ (
              fail_run-Later now Reason.provision_timeout d db
                (provisioning_facts db.run.state (not (is_some db.run.t0))
                  (ltb provision_window (now - db.run.created_at)) h)
                (phase_bound db.run.state)))
            (both db (Later-refl db.run))))
      λ h. both db (Later-refl db.run)

check_duration-Later : (now : ℕ) (db : Db) → Later db.run (check_duration now db).run
unfolding check_duration
check_duration-Later now db = ground (
  arith,
  transition-Later now RunState.draining (some Reason.duration_complete) "system" db,
  Later-refl db.run,
)

abbrev auth_aborted : ℕ → Db → Db
auth_aborted now db =
    record (transition_run now RunState.failed (some Reason.auto_abort_auth) "system" db) {
      target_red = true;
    }

auth_abort-Later :
    (now : ℕ) (d : Option Driver) (db : Db)
    → is_terminal db.run.state ≡ false
    → phase db.run.state ≤ 6
    → Later db.run (destroy_fleet now d (auth_aborted now db)).run
auth_abort-Later now d db h p =
    rw (run-destroy_fleet now d (auth_aborted now db))
      (transition-Later now RunState.failed (some Reason.auto_abort_auth) "system" db h p)

check_auto_abort-Later :
    (now : ℕ) (d : Option Driver) (db : Db) → Later db.run (check_auto_abort now d db).run
unfolding check_auto_abort
check_auto_abort-Later now d db = ground (
  arith,
  fail_run-Later now Reason.auto_abort_lost d db,
  auth_abort-Later now d db,
  phase_bound db.run.state,
  Later-refl db.run,
)

run-reap : (now : ℕ) (d : Option Driver) (db : Db) → (reap now d db).run ≡ db.run
unfolding reap
run-reap now d db = run-destroy_fleet now d db

run-reap_draining : (now : ℕ) (d : Option Driver) (db : Db) → (reap_draining now d db).run ≡ db.run
unfolding reap_draining
run-reap_draining now d db = ground (arith, run-reap now d db)

wind_down-Later : (now : ℕ) (d : Option Driver) (db : Db) → Later db.run (wind_down now d db).run
unfolding wind_down
wind_down-Later now d db =
    Later-from (run-reap_draining now d db) (maybe_complete_run-Later now (reap_draining now d db))

broken_off-Later : (db : Db) → Later db.run (broken_off db).run
unfolding broken_off
broken_off-Later db = ground (
  arith,
  Later-refl db.run,
  SameLife-Later (
      let same : SameLife db.run (broken_off db).run = record {
        same_state = ground arith;
        same_t0 = ground arith;
        same_end_reason = ground arith;
        same_ended_at = ground arith;
      } in
      same),
)

after_backpressure-Later :
    (now : ℕ) (d : Option Driver) (db : Db) (x : Result Db)
    → ResultLater db.run x
    → Later db.run (after_backpressure now d db x).run
unfolding after_backpressure
after_backpressure-Later now d db (raised e) h = broken_off-Later db
after_backpressure-Later now d db (ok _) (moved x h) = Later-trans h (wind_down-Later now d x)

check_policies-Later :
    (now : ℕ) (d : Option Driver) (db : Db) → Later db.run (check_policies now d db).run
unfolding check_policies
check_policies-Later now d db =
    Later-trans (check_duration-Later now db) (check_auto_abort-Later now d (check_duration now db))

after_provisioning-Later :
    (now : ℕ) (d : Option Driver) (s : Settings) {r : Run} (x : Result Db × Db)
    → PairLater r x
    → Later r (after_provisioning now d s x).run
unfolding after_provisioning
after_provisioning-Later now d s _ (both db h) = Later-trans h (
    Later-trans (check_policies-Later now d db) (
      after_backpressure-Later now d (check_policies now d db) _
        (check_backpressure-Later now s (check_policies now d db))))
after_provisioning-Later now d s _ (left e db h) = h

pub supervise_run-Later :
    (now boot_time : ℕ) (d : Option Driver) (s : Settings) (db : Db)
    → Later db.run (supervise_run now boot_time d s db).run
unfolding supervise_run lapse_stale_leases
supervise_run-Later now boot_time d s db = ground (
  arith,
  after_provisioning-Later now d s (check_provisioning now d (lapse_stale_leases now boot_time db))
      (check_provisioning-Later now d (lapse_stale_leases now boot_time db)),
  Later-refl db.run,
)
