-- ===== src/Lifecycle/Operator.antt =====
-- server/lifecycle.py: what an operator does to a run: stop_run, pause_run, resume_run, scale_run and
-- rescale_run.
use stoker.Prelude.{
  ℕ, zero, suc, ◌+◌, ◌-◌, max, Bool, true, false, not, ◌&&◌, ◌||◌, Option, none, some, List, [],
  ◌∷◌, ◌++◌, String, map, filter, length, range_from, ltb, ◌==◌, if◌then◌else◌,
}
use stoker.Engines.Apportion.{Share}
use stoker.Engines.Apportion
use stoker.Engines.Sharding.{Engine, eventgen, rawreplay, metrics, other}
use stoker.Lifecycle.Model.{
  RunState, LeaseState, Reason, is_terminal, share_only, Lease, Counters, Sample, EventKind, Scope,
  pass, window, Run, DriverCall, Db, Driver, stop_op, destroy_op, scale_op, extend_op, Result, ok,
  raised, bad_value, wrong_state, rotation_pinned, driver_failed, missing_attribute, stop_grace,
  pause_deadline_headroom,
}
use stoker.Lifecycle.Rows.{append_event, transition_run, call_driver}
use stoker.Lifecycle.Apportionment.{build_share_list, assign}
use stoker.Lifecycle.Complete.{maybe_complete_run, add_counters}
use stoker.Lifecycle.Heartbeat.{pause_length, paused_seconds, is_paused}

-- effective_workers: rawreplay has one worker.
abbrev pub effective_workers : Engine → ℕ → ℕ
effective_workers rawreplay workers = 1
effective_workers eventgen workers = max 1 workers
effective_workers metrics workers = max 1 workers
effective_workers other workers = max 1 workers

-- _end_pause: a pause under way is banked.
abbrev pub end_pause : ℕ → Run → Run
end_pause now run = record run {
  paused_s = run.paused_s + pause_length now run.paused_at;
  paused_at = none;
}

-- The latest sample of a slot.
unfoldable pub latest_sample : ℕ → List Sample → Option Counters
latest_sample slot [] = none
latest_sample slot (s ∷ ss) =
    if s.sample_slot == slot then some s.counters else latest_sample slot ss

abbrev pub add_sample : Counters → Option Counters → Counters
add_sample totals none = totals
add_sample totals (some c) = add_counters totals c

abbrev pub is_not_done : LeaseState → Bool
is_not_done LeaseState.done = false
is_not_done _ = true

-- _fold_heartbeat_totals: the totals with the latest heartbeat of every slot that is not done.
unfoldable pub live_totals : List Sample → List Lease → Counters → Counters
live_totals samples [] totals = totals
live_totals samples (l ∷ ls) totals =
    live_totals samples ls
      (if is_not_done l.state then add_sample totals (latest_sample l.slot samples) else totals)

-- A forced stop resolves every lease.
abbrev pub forced_state : LeaseState → LeaseState
forced_state LeaseState.claimed = LeaseState.done
forced_state LeaseState.ready = LeaseState.done
forced_state LeaseState.running = LeaseState.done
forced_state LeaseState.free = LeaseState.lost
forced_state LeaseState.lost = LeaseState.lost
forced_state LeaseState.done = LeaseState.done

unfoldable pub force_finalise : ℕ → Db → Db
force_finalise now db = maybe_complete_run now (record db {
  run = record db.run { totals = live_totals db.samples db.leases db.run.totals };
  leases = map (λ (l : Lease). record l { state = forced_state l.state }) db.leases;
})

unfoldable pub stop_fleet : ℕ → Driver → Bool → Db → Db
stop_fleet now d force db =
    if not db.run.has_driver_ref
    then db
    else let stopped : Db = call_driver now (DriverCall.stop stop_grace) stop_op d.stop_ok db in
      if force then call_driver now DriverCall.destroy destroy_op d.destroy_ok stopped else stopped

unfoldable pub stop_run : ℕ → Driver → Bool → String → Db → Db
stop_run now d force actor db =
    if is_terminal db.run.state
    then db
    else let draining : Db = stop_fleet now d force (
        transition_run now RunState.draining (some Reason.operator_stop) actor
          (record db { run = end_pause now db.run })) in
      if force then force_finalise now draining else draining

-- A duration of 0 or none is no bound.
abbrev pub is_bounded : Option ℕ → Bool
is_bounded none = false
is_bounded (some d) = ltb 0 d

abbrev pub bound_or_zero : Option ℕ → ℕ
bound_or_zero none = 0
bound_or_zero (some d) = d

unfoldable pub extend_driver_deadline : ℕ → Driver → ℕ → Db → Db
extend_driver_deadline now d paused db =
    if is_bounded db.run.snapshot.duration && db.run.has_driver_ref && d.can_extend
    then call_driver now
        (DriverCall.extend_deadline (bound_or_zero db.run.snapshot.duration) paused) extend_op
        d.extend_ok db
    else db

abbrev pub is_running : RunState → Bool
is_running RunState.running = true
is_running _ = false

unfoldable pub pause_run : ℕ → Driver → String → Db → Result Db
pause_run now d actor db =
    if not (is_running db.run.state)
    then raised wrong_state
    else let run : Run = record db.run { paused_at = some now } in
      ok (
        extend_driver_deadline now d (paused_seconds now run + pause_deadline_headroom)
          (transition_run now RunState.paused none actor (record db { run = run })))

unfoldable pub resume_run : ℕ → Driver → String → Db → Result Db
resume_run now d actor db =
    if not (is_paused db.run.state)
    then raised wrong_state
    else let run : Run = end_pause now db.run in
      ok (
        extend_driver_deadline now d run.paused_s
          (transition_run now RunState.running none actor (record db { run = run })))

-- rotation_pins_fleet
abbrev pub pins_fleet : Option Scope → Bool
pins_fleet none = false
pins_fleet (some pass) = true
pins_fleet (some window) = false

-- New free leases for the slots from `from` on; ids draws their lease ids.
abbrev pub new_lease : (ℕ → ℕ) → ℕ → Lease
new_lease ids slot = record {
  slot = slot;
  share_json = share_only none;
  lease_id = ids slot;
  holder = none;
  state = LeaseState.free;
  last_heartbeat_at = none;
  effective_t0 = none;
  restarts = 0;
  final_log_tail = [];
}

unfoldable pub resize : (ℕ → ℕ) → ℕ → List Lease → List Lease
resize ids workers leases =
    if ltb (length leases) workers
    then leases ++ map (new_lease ids) (range_from (length leases) (workers - length leases))
    else if ltb workers (length leases)
    then filter (λ l. ltb l.slot workers) leases
    else leases

abbrev pub unpriced : Apportion.Result → (List Share → Db) → Result Db
unpriced (Apportion.error e) k = raised bad_value
unpriced (Apportion.ok shares) k = ok (k shares)

unfoldable pub rescaled_leases : List Share → List Lease → List Lease
rescaled_leases shares leases = map (assign shares) leases

-- The rows after the driver has scaled the fleet.
unfoldable pub scale_rows : ℕ → ℕ → (ℕ → ℕ) → String → Db → Result Db
scale_rows now workers ids actor db =
    unpriced (build_share_list db.run.snapshot.rate_mode db.run.snapshot.rate_value workers)
      λ shares. append_event now actor EventKind.scaled (record db {
        run = record db.run { snapshot = record db.run.snapshot { workers = some workers } };
        leases = rescaled_leases shares (resize ids workers db.leases);
      })

unfoldable pub scale_fleet : ℕ → Driver → ℕ → (ℕ → ℕ) → String → Db → Result Db
scale_fleet now d workers ids actor db =
    if not db.run.has_driver_ref
    then scale_rows now workers ids actor db
    else if d.scale_ok
    then scale_rows now workers ids actor
        (call_driver now (DriverCall.scale workers) scale_op true db)
    else raised driver_failed

-- A missing worker count in the snapshot makes the check of a pinned fleet read an attribute that a
-- run does not have.
unfoldable pub scale_checked : ℕ → Driver → ℕ → (ℕ → ℕ) → String → Db → Option ℕ → Result Db
scale_checked now d workers ids actor db none =
    if pins_fleet db.run.snapshot.rotation
    then raised missing_attribute
    else scale_fleet now d workers ids actor db
scale_checked now d workers ids actor db (some zero) =
    if pins_fleet db.run.snapshot.rotation
    then raised missing_attribute
    else scale_fleet now d workers ids actor db
scale_checked now d workers ids actor db (some (suc n)) =
    if pins_fleet db.run.snapshot.rotation && not (workers == suc n)
    then raised rotation_pinned
    else scale_fleet now d workers ids actor db

unfoldable pub scale_run : ℕ → Driver → ℕ → (ℕ → ℕ) → String → Db → Result Db
scale_run now d workers ids actor db =
    if workers == 0
    then raised bad_value
    else if is_terminal db.run.state
    then ok db
    else scale_checked now d (effective_workers db.run.snapshot.engine workers) ids actor db
        db.run.snapshot.workers

unfoldable pub rescale_run : ℕ → Option ℕ → String → Db → Result Db
rescale_run now rate_value actor db =
    if is_terminal db.run.state || length db.leases == 0
    then ok db
    else unpriced (build_share_list db.run.snapshot.rate_mode rate_value (length db.leases))
        λ shares. append_event now actor EventKind.rescaled (record db {
          run = record db.run { snapshot = record db.run.snapshot { rate_value = rate_value } };
          leases = rescaled_leases shares db.leases;
        })
