-- ===== src/Lifecycle/Complete.antt =====
-- server/lifecycle.py: maybe_complete_run and record_final.
use stoker.Prelude.{
  ℕ, ◌+◌, Bool, true, false, not, ◌&&◌, ◌||◌, Option, none, some, List, String, any, or_else, ◌==◌,
  if◌then◌else◌,
}
use stoker.Lifecycle.Model.{
  RunState, LeaseState, Reason, is_live, is_lost, is_done, Lease, Counters, EventKind, Run, Db,
  Result, ok, raised, unknown_slot, reason_rank,
}
use stoker.Lifecycle.Rows.{append_event, transition_run, find_lease, put_lease}

-- The states from which a run may end by its leases.
abbrev pub completable : RunState → Bool
completable RunState.running = true
completable RunState.releasing = true
completable RunState.paused = true
completable RunState.draining = true
completable _ = false

abbrev pub is_draining : RunState → Bool
is_draining RunState.draining = true
is_draining _ = false

abbrev pub any_live : List Lease → Bool
any_live = any (λ l. is_live l.state)

abbrev pub any_done : List Lease → Bool
any_done = any (λ l. is_done l.state)

abbrev pub any_lost : List Lease → Bool
any_lost = any (λ l. is_lost l.state)

-- delivered_events
abbrev pub delivered_events : Run → ℕ
delivered_events run = or_else run.totals.events_total 0

-- _FAILED_REASONS
abbrev pub is_failed_reason : Reason → Bool
is_failed_reason Reason.provision_failed = true
is_failed_reason Reason.strict_release_timeout = true
is_failed_reason Reason.auto_abort_lost = true
is_failed_reason Reason.auto_abort_auth = true
is_failed_reason Reason.all_workers_lost = true
is_failed_reason Reason.orphaned = true
is_failed_reason Reason.no_events = true
is_failed_reason _ = false

-- _STOPPED_REASONS
abbrev pub is_stopped_reason : Reason → Bool
is_stopped_reason Reason.operator_stop = true
is_stopped_reason _ = false

-- How the leases and the delivery decide, where the reason does not.
unfoldable pub outcome_state : Run → List Lease → RunState
outcome_state run leases =
    if any_lost leases && not (any_done leases)
    then RunState.failed
    else if delivered_events run == 0
    then RunState.failed
    else RunState.completed

unfoldable pub terminal_state_for : Run → Option Reason → List Lease → RunState
terminal_state_for run none leases = outcome_state run leases
terminal_state_for run (some r) leases =
    if is_failed_reason r
    then RunState.failed
    else if is_stopped_reason r
    then RunState.stopped
    else outcome_state run leases

unfoldable pub default_end_reason : RunState → List Lease → Run → Reason
default_end_reason RunState.completed leases run = Reason.completed
default_end_reason RunState.stopped leases run = Reason.operator_stop
default_end_reason _ leases run =
    if any_lost leases && not (any_done leases)
    then Reason.all_workers_lost
    else if any_done leases && delivered_events run == 0
    then Reason.no_events
    else Reason.failed

abbrev pub reason_or : Option Reason → Reason → Reason
reason_or none r = r
reason_or (some q) r = q

-- A run that fails for want of events says so in its log.
unfoldable pub note_no_events : ℕ → Reason → Db → Db
note_no_events now r db =
    if reason_rank r == 10 then append_event now "system" EventKind.no_events db else db

unfoldable pub finish : ℕ → RunState → Db → Db
finish now terminal db =
    let reason = reason_or db.run.end_reason (default_end_reason terminal db.leases db.run) in
    transition_run now terminal (some reason) "system" (note_no_events now reason db)

-- Every lease is resolved, and something says how the run ended.
abbrev pub is_resolved : Db → Bool
is_resolved db =
    completable db.run.state
    && not (any_live db.leases)
    && (any_done db.leases || any_lost db.leases)
    && (is_draining db.run.state || any_done db.leases)

unfoldable pub maybe_complete_run : ℕ → Db → Db
maybe_complete_run now db =
    if is_resolved db
    then finish now (terminal_state_for db.run db.run.end_reason db.leases) db
    else db

-- totals.get(key, 0) + value
abbrev pub add_counter : Option ℕ → Option ℕ → Option ℕ
add_counter total none = total
add_counter total (some v) = some (or_else total 0 + v)

unfoldable pub add_counters : Counters → Counters → Counters
add_counters t c = record {
  events_total = add_counter t.events_total c.events_total;
  bytes_total = add_counter t.bytes_total c.bytes_total;
  hec_2xx = add_counter t.hec_2xx c.hec_2xx;
  hec_4xx = add_counter t.hec_4xx c.hec_4xx;
  hec_5xx = add_counter t.hec_5xx c.hec_5xx;
  hec_timeouts = add_counter t.hec_timeouts c.hec_timeouts;
  retries = add_counter t.retries c.retries;
}

-- A final that is not a repetition folds its summary and resolves the lease.
unfoldable pub finalise : ℕ → Counters → List String → Lease → Db → Db
finalise now summary log_tail l db =
    if is_done l.state
    then record db { leases = put_lease (record l { final_log_tail = log_tail }) db.leases }
    else append_event now "agent" (EventKind.final l.slot) (record db {
      run = record db.run { totals = add_counters db.run.totals summary };
      leases =
          put_lease (record l { final_log_tail = log_tail; state = LeaseState.done }) db.leases;
    })

-- A lease id that is given must be the holder's; one that is absent is not checked.
abbrev pub may_finalise : Lease → Option ℕ → Bool
may_finalise l none = true
may_finalise l (some id) = l.lease_id == id

unfoldable pub record_final_found :
    ℕ → Counters → List String → Option ℕ → Db → Option Lease → Result Db
record_final_found now summary log_tail lease_id db none = raised unknown_slot
record_final_found now summary log_tail lease_id db (some l) =
    if may_finalise l lease_id
    then ok (maybe_complete_run now (finalise now summary log_tail l db))
    else ok db

unfoldable pub record_final : ℕ → ℕ → Counters → List String → Option ℕ → Db → Result Db
record_final now slot summary log_tail lease_id db =
    record_final_found now summary log_tail lease_id db (find_lease slot db.leases)
