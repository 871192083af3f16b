-- ===== src/Lifecycle/Later/Parts.antt =====
-- How the parts of the agent's and the operator's operations move the run row.
use stoker.Prelude.{
  ℕ, ◌≤◌, ◌≡◌, ap, inl, inr, Bool, true, false, Option, none, some, List, arith, is_some, String,
  ◌&&◌, ◌||◌, not, count_if, any,
}
use stoker.Engines.Apportion
use stoker.Lifecycle.Model.{
  RunState, Reason, is_terminal, is_ready, Run, Db, Lease, Counters, EventKind,
}
use stoker.Lifecycle.Rows.{transition_run, append_event, find_lease}
use stoker.Lifecycle.Step.{kept}
use stoker.Lifecycle.Apportionment.{retarget_ready, build_share_list}
use stoker.Lifecycle.Release.{
  releasable, release, partial_release, force_release, evaluate_release, become_ready, mark_ready,
  mark_ready_found, without_pending, degrade,
}
use stoker.Lifecycle.Complete.{
  completable, is_draining, reason_or, default_end_reason, any_live, any_done, any_lost,
  maybe_complete_run, finish, note_no_events, terminal_state_for, outcome_state, finalise,
  record_final, record_final_found,
}
use stoker.Lifecycle.Later.{phase, Later, Later-refl, Later-trans, Later-from, transition-Later}

-- Releasing sets T0, from a run that has none.
release-Later :
    (now : ℕ) (db : Db)
    → db.run.t0 ≡ none
    → is_terminal db.run.state ≡ false
    → phase db.run.state ≤ 3
    → Later db.run (release now db).run
unfolding release transition_run
release-Later now db e h p = record { forward = p; t0_once = inl e; ended_stays = inl h }

partial_release-Later :
    (now : ℕ) (r : Apportion.Result) (db : Db)
    → db.run.t0 ≡ none
    → is_terminal db.run.state ≡ false
    → phase db.run.state ≤ 3
    → Later db.run (partial_release now r db).1.run
unfolding partial_release
partial_release-Later now (Apportion.error e) db n h p = Later-refl db.run
partial_release-Later now (Apportion.ok shares) db n h p =
    release-Later now
      (append_event now "system" EventKind.partial_release
        (record db { leases = retarget_ready shares db.leases }))
      n h p

force_release-Later :
    (now : ℕ) (db : Db)
    → db.run.t0 ≡ none
    → is_terminal db.run.state ≡ false
    → phase db.run.state ≤ 3
    → Later db.run (force_release now db).1.run
unfolding force_release
force_release-Later now db n h p = ground (
  arith,
  transition-Later now RunState.failed (some Reason.strict_release_timeout) "system"
      (without_pending db) h,
  partial_release-Later now
      (build_share_list db.run.snapshot.rate_mode db.run.snapshot.rate_value
        (count_if (λ (l : Lease). is_ready l.state) db.leases))
      (degrade (without_pending db)) n h p,
)

may_release :
    (o : Option ℕ) (s : RunState) (b : Bool)
    → (is_some o || not (releasable s) || b) ≡ false
    → (o ≡ none) × (is_terminal s ≡ false) × (phase s ≤ 3)
may_release o s b h = ground arith

pub evaluate_release-Later :
    (now : ℕ) (force : Bool) (db : Db) → Later db.run (evaluate_release now force db).1.run
unfolding evaluate_release
evaluate_release-Later now force db = ground (
  arith,
  may_release db.run.t0 db.run.state (not (any (λ (l : Lease). is_ready l.state) db.leases)),
  release-Later now db,
  force_release-Later now db,
  Later-refl db.run,
)

run-become_ready : (now : ℕ) (l : Lease) (db : Db) → (become_ready now l db).run ≡ db.run
unfolding become_ready
run-become_ready now l db = ground arith

reported_ready-Later :
    (now : ℕ) (l : Lease) (db : Db)
    → Later db.run (evaluate_release now false (become_ready now l db)).1.run
reported_ready-Later now l db =
    Later-from (run-become_ready now l db)
      (evaluate_release-Later now false (become_ready now l db))

mark_ready_found-Later :
    (now : ℕ) (id : Option ℕ) (db : Db) (o : Option Lease)
    → Later db.run (mark_ready_found now id db o).1.run
unfolding mark_ready_found
mark_ready_found-Later now _ db none = Later-refl db.run
mark_ready_found-Later now none db (some l) = Later-refl db.run
mark_ready_found-Later now (some id) db (some l) =
    ground (arith, reported_ready-Later now l db, Later-refl db.run)

pub mark_ready-Later :
    (now slot : ℕ) (lease_id : Option ℕ) (db : Db)
    → Later db.run (mark_ready now slot lease_id db).1.run
unfolding mark_ready
mark_ready-Later now slot id db = mark_ready_found-Later now id db (find_lease slot db.leases)

outcome_phase : (run : Run) (leases : List Lease) → phase (outcome_state run leases) ≡ 6
unfolding outcome_state
outcome_phase run leases = ground arith

terminal_phase :
    (run : Run) (reason : Option Reason) (leases : List Lease)
    → phase (terminal_state_for run reason leases) ≡ 6
unfolding terminal_state_for
terminal_phase run none leases = outcome_phase run leases
terminal_phase run (some r) leases = ground (arith, outcome_phase run leases)

run-note_no_events : (now : ℕ) (r : Reason) (db : Db) → (note_no_events now r db).run ≡ db.run
unfolding note_no_events
run-note_no_events now r db = ground arith

resolved_state :
    (s : RunState) (b : Bool)
    → (completable s && b) ≡ true
    → (is_terminal s ≡ false) × (phase s ≤ 6)
resolved_state s b h = ground arith

finish-Later :
    (now : ℕ) (terminal : RunState) (db : Db)
    → phase terminal ≡ 6
    → is_terminal db.run.state ≡ false
    → phase db.run.state ≤ 6
    → Later db.run (finish now terminal db).run
unfolding finish transition_run
finish-Later now terminal db t h p =
    let reason : Reason =
      reason_or db.run.end_reason (default_end_reason terminal db.leases db.run) in
    record {
      forward = omega arith;
      t0_once = inr (ap (λ (r : Run). r.t0) (run-note_no_events now reason db));
      ended_stays = inl h;
    }

pub maybe_complete_run-Later : (now : ℕ) (db : Db) → Later db.run (maybe_complete_run now db).run
unfolding maybe_complete_run
maybe_complete_run-Later now db = ground (
  arith,
  resolved_state db.run.state (
      not (any_live db.leases)
      && (any_done db.leases || any_lost db.leases)
      && (is_draining db.run.state || any_done db.leases)),
  finish-Later now (terminal_state_for db.run db.run.end_reason db.leases) db
      (terminal_phase db.run db.run.end_reason db.leases),
  Later-refl db.run,
)

-- What a run row shows of its life; an operation that keeps it keeps everything that Later speaks of.
pub record SameLife (r s : Run) : Type 0 where
  pub same_state : s.state ≡ r.state
  pub same_t0 : s.t0 ≡ r.t0
  pub same_end_reason : s.end_reason ≡ r.end_reason
  pub same_ended_at : s.ended_at ≡ r.ended_at

pub SameLife-Later : {r s : Run} → SameLife r s → Later r s
SameLife-Later {r} {s} e = record {
  forward = ground arith;
  t0_once = inr e.same_t0;
  ended_stays = inr (e.same_state, e.same_end_reason, e.same_ended_at);
}

finalise-SameLife :
    (now : ℕ) (summary : Counters) (log_tail : List String) (l : Lease) (db : Db)
    → SameLife db.run (finalise now summary log_tail l db).run
unfolding finalise
finalise-SameLife now summary log_tail l db = ground arith

record_final_found-Later :
    (now : ℕ) (summary : Counters) (log_tail : List String) (id : Option ℕ) (db : Db)
    (o : Option Lease)
    → Later db.run (kept db (record_final_found now summary log_tail id db o)).run
unfolding record_final_found
record_final_found-Later now summary tail id db none = Later-refl db.run
record_final_found-Later now summary tail none db (some l) =
    Later-trans (SameLife-Later (finalise-SameLife now summary tail l db))
      (maybe_complete_run-Later now (finalise now summary tail l db))
record_final_found-Later now summary tail (some id) db (some l) = ground (
  arith,
  Later-trans (SameLife-Later (finalise-SameLife now summary tail l db))
      (maybe_complete_run-Later now (finalise now summary tail l db)),
  Later-refl db.run,
)

pub record_final-Later :
    (now slot : ℕ) (summary : Counters) (log_tail : List String) (lease_id : Option ℕ) (db : Db)
    → Later db.run (kept db (record_final now slot summary log_tail lease_id db)).run
unfolding record_final
record_final-Later now slot summary tail id db =
    record_final_found-Later now summary tail id db (find_lease slot db.leases)
