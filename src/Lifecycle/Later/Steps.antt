-- ===== src/Lifecycle/Later/Steps.antt =====
-- How the steps of a run, and sequences of them, move the run row.
use stoker.Prelude.{
  if_cases, ℕ, ◌≡◌, refl, Bool, true, false, Option, none, some, List, [], ◌∷◌, arith, is_some,
  ◌&&◌, ◌||◌, not, if◌then◌else◌, count_if,
}
use stoker.Engines.Apportion
use stoker.Lifecycle.Model.{
  Driver, Reason, RunState, is_terminal, is_lost, is_live, Run, Db, Lease, EventKind,
}
use stoker.Lifecycle.Rows.{append_event, find_lease, put_lease}
use stoker.Lifecycle.Apportionment.{build_share_list}
use stoker.Lifecycle.Complete.{is_draining}
use stoker.Lifecycle.Operator.{scale_run, rescale_run}
use stoker.Lifecycle.Claim.{
  issue, reshare_takeover, reapportion_on_takeover, take_lease, take_next, renew_held,
  claim_or_renew, next_claimable, find_held, claim_lease,
}
use stoker.Lifecycle.Heartbeat.{
  Payload, maybe_mark_running, release_command, serving_command, heartbeat_command, recover,
  reported, logged, answer, record_heartbeat_found, record_heartbeat,
}
use stoker.Lifecycle.Step.{Op, step, run_steps, kept_claim}
use stoker.Lifecycle.Later.{Later, Later-refl, Later-trans, Later-from, transition-Later}
use stoker.Lifecycle.Later.Parts.{mark_ready-Later, record_final-Later}
use stoker.Lifecycle.Later.Operators.{
  kept-Later, pause_run-Later, resume_run-Later, stop_run-Later, scale_run-Later, rescale_run-Later,
}
use stoker.Lifecycle.Later.Ticks.{supervise_run-Later, run-destroy_fleet, phase_bound}
use stoker.Lifecycle.Supervisor.{destroy_fleet}
use stoker.Lifecycle.Boot.{
  Probe, orphan, lose_leases, reconcile_probed, reconcile_on_boot, reap_terminal,
}

run-reshare_takeover :
    (now slot : ℕ) (r : Apportion.Result) (db : Db) → (reshare_takeover now slot r db).run ≡ db.run
unfolding reshare_takeover
run-reshare_takeover now slot (Apportion.error e) db = refl
run-reshare_takeover now slot (Apportion.ok shares) db = ground arith

run-if : (r : Run) (b : Bool) (x y : Db) → x.run ≡ r → y.run ≡ r → (if b then x else y).run ≡ r
run-if r true x y hx hy = hx
run-if r false x y hx hy = hy

run-reapportion_on_takeover :
    (now slot : ℕ) (db : Db) → (reapportion_on_takeover now slot db).run ≡ db.run
unfolding reapportion_on_takeover
run-reapportion_on_takeover now slot db =
    run-if db.run (is_terminal db.run.state || is_draining db.run.state || not db.run.degraded) _ _
      refl
      (run-reshare_takeover now slot
        (build_share_list db.run.snapshot.rate_mode db.run.snapshot.rate_value
          (count_if (λ (l : Lease). is_live l.state) db.leases))
        db)

run-take_lease :
    (now holder fresh_id : ℕ) (l : Lease) (db : Db)
    → (take_lease now holder fresh_id l db).run ≡ db.run
unfolding take_lease
run-take_lease now holder fresh_id l db =
    let issued : Db = record db {
      leases = put_lease (issue now holder fresh_id db.run l) db.leases;
    } in
    run-if db.run (is_lost l.state && is_some db.run.t0) (reapportion_on_takeover now l.slot issued)
      issued (run-reapportion_on_takeover now l.slot issued) refl

take_next-Later :
    (now holder fresh_id : ℕ) (db : Db) (o : Option Lease)
    → Later db.run (kept_claim db (take_next now holder fresh_id db o)).run
unfolding take_next
take_next-Later now holder fresh_id db none = Later-refl db.run
take_next-Later now holder fresh_id db (some l) =
    Later-from (run-take_lease now holder fresh_id l db)
      (Later-refl (take_lease now holder fresh_id l db).run)

claim_or_renew-Later :
    (now holder fresh_id : ℕ) (db : Db) (hint_slot : Option ℕ) (o : Option Lease)
    → Later db.run (kept_claim db (claim_or_renew now holder hint_slot fresh_id db o)).run
unfolding claim_or_renew renew_held
claim_or_renew-Later now holder fresh_id db hint_slot none =
    take_next-Later now holder fresh_id db (next_claimable db.leases hint_slot)
claim_or_renew-Later now holder fresh_id db hint_slot (some l) = Later-refl db.run

claim_lease-Later :
    (now holder fresh_id : ℕ) (db : Db) (hint_slot : Option ℕ)
    → Later db.run (kept_claim db (claim_lease now holder hint_slot fresh_id db)).run
unfolding claim_lease
claim_lease-Later now holder fresh_id db hint_slot = ground (
  arith,
  claim_or_renew-Later now holder fresh_id db hint_slot (find_held holder db.leases),
  Later-refl db.run,
)

logged-run : (now : ℕ) (p : Payload) (slot : ℕ) (db : Db) → (logged now p slot db).run ≡ db.run
unfolding logged
logged-run now p slot db = ground arith

maybe_mark_running-Later : (now : ℕ) (db : Db) → Later db.run (maybe_mark_running now db).run
unfolding maybe_mark_running
maybe_mark_running-Later now db =
    ground (arith, transition-Later now RunState.running none "system" db, Later-refl db.run)

release_command-Later :
    (now t0 : ℕ) (l : Lease) (db : Db) → Later db.run (release_command now t0 l db).2.run
unfolding release_command
release_command-Later now t0 l db = ground (
  arith,
  maybe_mark_running-Later now (append_event now "agent" (EventKind.running l.slot) db),
  Later-refl db.run,
)

serving_command-Later :
    (now : ℕ) (l : Lease) (db : Db) (o : Option ℕ) → Later db.run (serving_command now l db o).2.run
unfolding serving_command
serving_command-Later now l db none = Later-refl db.run
serving_command-Later now l db (some t0) =
    ground (arith, release_command-Later now t0 l db, Later-refl db.run)

heartbeat_command-Later :
    (now protocol_version : ℕ) (l : Lease) (db : Db)
    → Later db.run (heartbeat_command now protocol_version l db).2.run
unfolding heartbeat_command
heartbeat_command-Later now v l db =
    ground (arith, serving_command-Later now (recover db.run l) db db.run.t0, Later-refl db.run)

answer-Later :
    (now : ℕ) (p : Payload) (l : Lease) (db : Db) → Later db.run (answer now p l db).1.run
unfolding answer
answer-Later now p l db =
    Later-from (logged-run now p l.slot db)
      (heartbeat_command-Later now p.protocol_version (reported now p l) (logged now p l.slot db))

record_heartbeat_found-Later :
    (now : ℕ) (lease_id : Option ℕ) (p : Payload) (db : Db) (o : Option Lease)
    → Later db.run (record_heartbeat_found now lease_id p db o).1.run
unfolding record_heartbeat_found
record_heartbeat_found-Later now lease_id p db none = Later-refl db.run
record_heartbeat_found-Later now none p db (some l) = Later-refl db.run
record_heartbeat_found-Later now (some id) p db (some l) =
    ground (arith, answer-Later now p l db, Later-refl db.run)

reap_terminal-Later :
    (now : ℕ) (d : Option Driver) (db : Db) → Later db.run (reap_terminal now d db).run
unfolding reap_terminal
reap_terminal-Later now d db =
    if_cases (λ (x : Db). Later db.run x.run) _ (destroy_fleet now d db) db
      (λ e. rw (run-destroy_fleet now d db) (Later-refl db.run)) (λ e. Later-refl db.run)

orphan-Later :
    (now : ℕ) (db : Db) → is_terminal db.run.state ≡ false → Later db.run (orphan now db).run
unfolding orphan
orphan-Later now db h =
    transition-Later now RunState.failed (some Reason.orphaned) "system" db h
      (phase_bound db.run.state)

reconcile_probed-Later :
    (now : ℕ) (probe : Probe) (db : Db)
    → is_terminal db.run.state ≡ false
    → Later db.run (reconcile_probed now probe db).run
unfolding reconcile_probed lose_leases
reconcile_probed-Later now Probe.no_driver db h = Later-refl db.run
reconcile_probed-Later now Probe.probe_failed db h = Later-refl db.run
reconcile_probed-Later now (Probe.workload desired running) db h =
    ground (arith, orphan-Later now db h, Later-refl db.run)

reconcile_on_boot-Later :
    (now : ℕ) (probe : Probe) (db : Db) → Later db.run (reconcile_on_boot now probe db).run
unfolding reconcile_on_boot
reconcile_on_boot-Later now probe db =
    ground (arith, orphan-Later now db, reconcile_probed-Later now probe db, Later-refl db.run)

-- Every operation, at any instant and with any arguments, and also where it raises, moves the run
-- forward: the phase of its state (pending, preparing, provisioning, releasing, running or paused,
-- draining, ended) never falls, T0 once set stays as it is, and a run that has ended keeps its state,
-- its end reason and the time of its end.
pub step-Later : (now : ℕ) (op : Op) (db : Db) → Later db.run (step now op db).run
unfolding step record_heartbeat
step-Later now (Op.claim holder hint_slot fresh_id) db =
    claim_lease-Later now holder fresh_id db hint_slot
step-Later now (Op.ready slot lease_id) db = mark_ready-Later now slot lease_id db
step-Later now (Op.heartbeat slot lease_id p) db =
    record_heartbeat_found-Later now lease_id p db (find_lease slot db.leases)
step-Later now (Op.final slot summary log_tail lease_id) db =
    record_final-Later now slot summary log_tail lease_id db
step-Later now (Op.stop d force actor) db = stop_run-Later now d force actor db
step-Later now (Op.pause d actor) db = pause_run-Later now d actor db
step-Later now (Op.resume d actor) db = resume_run-Later now d actor db
step-Later now (Op.scale d workers ids actor) db =
    kept-Later db (scale_run now d workers ids actor db)
      (scale_run-Later now d workers ids actor db)
step-Later now (Op.rescale rate_value actor) db =
    kept-Later db (rescale_run now rate_value actor db) (rescale_run-Later now rate_value actor db)
step-Later now (Op.tick boot_time d settings) db = supervise_run-Later now boot_time d settings db
step-Later now (Op.reap d) db = reap_terminal-Later now d db
step-Later now (Op.boot probe) db = reconcile_on_boot-Later now probe db

-- Every sequence of operations of workers, operators, the supervisor and the start-up, in any order, at
-- any instants, with any arguments and also where they raise, moves a run forward: the phase of its
-- state (pending, preparing, provisioning, releasing, running or paused, draining, ended) never falls,
-- T0 once set stays as it is, and a run that has ended keeps its state, its end reason and the time of
-- its end.
pub run_steps-Later : (db : Db) (ops : List (ℕ × Op)) → Later db.run (run_steps db ops).run
unfolding run_steps
run_steps-Later db [] = Later-refl db.run
run_steps-Later db ((now, op) ∷ ops) =
    Later-trans (step-Later now op db) (run_steps-Later (step now op db) ops)
