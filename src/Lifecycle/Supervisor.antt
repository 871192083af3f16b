-- ===== src/Lifecycle/Supervisor.antt =====
-- server/lifecycle.py: one supervisor tick over one run (_supervise_run) and its policies.
-- A driver that cannot be resolved for the run is absent.
use stoker.Prelude.{
  ℕ, ◌+◌, ◌-◌, ◌*◌, ◌/◌, max, Bool, true, false, not, ◌&&◌, ◌||◌, Option, none, some, List, [], ◌∷◌,
  map, any, count_if, length, ltb, leb, ◌==◌, is_some, or_else, if◌then◌else◌,
}
use stoker.Lifecycle.Model.{
  RunState, LeaseState, Reason, is_terminal, is_live, is_lost, is_done, is_ready, is_pending, Lease,
  EventKind, Event, DriverCall, destroy_op, Driver, Run, Db, Result, ok, raised, provision_window,
  lease_lapse, boot_grace, stop_grace, auto_abort_lost_window,
}
use stoker.Lifecycle.Rows.{append_event, transition_run, call_driver}
use stoker.Lifecycle.Release.{evaluate_release}
use stoker.Lifecycle.Complete.{maybe_complete_run, is_draining}
use stoker.Lifecycle.Heartbeat.{paused_seconds}
use stoker.Lifecycle.Operator.{is_bounded, bound_or_zero}
use stoker.Lifecycle.Backpressure.{
  Settings, check_backpressure, delivers, with_original, original_rate,
}

-- The instant after which a lease is lost.
abbrev pub lapse_deadline : ℕ → ℕ → Lease → ℕ
lapse_deadline boot_time created_at l =
    max (or_else l.last_heartbeat_at created_at + lease_lapse) (boot_time + boot_grace)

abbrev pub lapses : ℕ → ℕ → ℕ → Lease → Bool
lapses now boot_time created_at l =
    is_live l.state && ltb (lapse_deadline boot_time created_at l) now

unfoldable pub lapse_lease : ℕ → ℕ → ℕ → Lease → Lease
lapse_lease now boot_time created_at l = record l {
  state = if lapses now boot_time created_at l then LeaseState.lost else l.state;
}

-- A lease_lost event for each lease that passes the test, in the order of the slots.
unfoldable pub log_lost : ℕ → (Lease → Bool) → List Lease → List Event → List Event
log_lost now test [] events = events
log_lost now test (l ∷ ls) events = log_lost now test ls (
    if test l
    then record { ts = now; actor = "system"; kind = EventKind.lease_lost l.slot } ∷ events
    else events)

-- _lapse_stale_leases
unfoldable pub lapse_stale_leases : ℕ → ℕ → Db → Db
lapse_stale_leases now boot_time db = record db {
  leases = map (lapse_lease now boot_time db.run.created_at) db.leases;
  events = log_lost now (lapses now boot_time db.run.created_at) db.leases db.events;
}

-- _destroy_fleet
unfoldable pub destroy_fleet : ℕ → Option Driver → Db → Db
destroy_fleet now none db = db
destroy_fleet now (some d) db =
    if not db.run.has_driver_ref
    then db
    else let asked : Db = call_driver now DriverCall.destroy destroy_op d.destroy_ok db in
      if d.destroy_ok then append_event now "system" EventKind.fleet_destroyed asked else asked

abbrev pub is_provisioning : RunState → Bool
is_provisioning RunState.provisioning = true
is_provisioning _ = false

unfoldable pub fail_run : ℕ → Reason → Option Driver → Db → Db
fail_run now reason d db =
    destroy_fleet now d (transition_run now RunState.failed (some reason) "system" db)

-- A raise leaves what was written before it.
abbrev pub released : Result Bool × Db → Result Db × Db
released (ok b, db) = (ok db, db)
released (raised e, db) = (raised e, db)

-- Step 2 of the tick: the release timeout.
unfoldable pub check_provisioning : ℕ → Option Driver → Db → Result Db × Db
check_provisioning now d db =
    if is_provisioning db.run.state
      && not (is_some db.run.t0)
      && ltb provision_window (now - db.run.created_at)
    then (if any (λ (l : Lease). is_ready l.state) db.leases
        then released (evaluate_release now true db)
        else if not (any (λ (l : Lease). is_pending l.state) db.leases)
        then (let failed_db = fail_run now Reason.provision_timeout d db in
            (ok failed_db, failed_db))
        else (ok db, db))
    else (ok db, db)

abbrev pub end_at : ℕ → ℕ → Run → ℕ
end_at now t0 run = t0 + bound_or_zero run.snapshot.duration + paused_seconds now run

-- _check_duration
unfoldable pub check_duration : ℕ → Db → Db
check_duration now db = elim db.run.t0 [
  | none ↦ db
  | some t0 ↦
      if delivers db.run.state
        && is_bounded db.run.snapshot.duration
        && leb (end_at now t0 db.run) now
      then transition_run now RunState.draining (some Reason.duration_complete) "system" db
      else db
]

-- A lease lost after it was heard of.
abbrev pub lost_running : Lease → Bool
lost_running l = is_lost l.state && is_some l.last_heartbeat_at

-- The latest heartbeat among the lost.
unfoldable pub latest_lapse : List Lease → ℕ
latest_lapse [] = 0
latest_lapse (l ∷ ls) =
    max (if lost_running l then or_else l.last_heartbeat_at 0 else 0) (latest_lapse ls)

abbrev pub is_collapsed : ℕ → Db → Bool
is_collapsed now db =
    is_some db.run.t0
    && ltb (length db.leases) (2 * count_if lost_running db.leases)
    && leb auto_abort_lost_window (now - latest_lapse db.leases)

unfoldable pub holds : ℕ → List ℕ → Bool
holds slot [] = false
holds slot (s ∷ ss) = s == slot || holds slot ss

abbrev pub auth_slot : EventKind → Option ℕ
auth_slot (EventKind.hec_auth_failed slot) = some slot
auth_slot _ = none

abbrev pub add_slot : Option ℕ → List ℕ → List ℕ
add_slot none slots = slots
add_slot (some slot) slots = if holds slot slots then slots else slot ∷ slots

-- _auth_failed_slots, each slot once
unfoldable pub auth_failed_slots : List Event → List ℕ
auth_failed_slots [] = []
auth_failed_slots (e ∷ es) = add_slot (auth_slot e.kind) (auth_failed_slots es)

abbrev pub is_auth_broken : Db → Bool
is_auth_broken db =
    ltb 0 (length (auth_failed_slots db.events))
    && leb (max 1 (length db.leases / 2)) (length (auth_failed_slots db.events))

-- _check_auto_abort
unfoldable pub check_auto_abort : ℕ → Option Driver → Db → Db
check_auto_abort now d db =
    if is_terminal db.run.state || is_draining db.run.state || length db.leases == 0
    then db
    else if is_collapsed now db
    then fail_run now Reason.auto_abort_lost d db
    else if is_auth_broken db
    then destroy_fleet now d
        (record (transition_run now RunState.failed (some Reason.auto_abort_auth) "system" db) {
          target_red = true;
        })
    else db

abbrev pub to_draining : EventKind → Bool
to_draining (EventKind.state from RunState.draining reason) = true
to_draining _ = false

-- _last_state_ts of draining
unfoldable pub drain_since : List Event → Option ℕ
drain_since [] = none
drain_since (e ∷ es) = if to_draining e.kind then some e.ts else drain_since es

abbrev pub is_unresolved : Lease → Bool
is_unresolved l = not (is_done l.state || is_lost l.state)

-- The stop grace has passed: the fleet is destroyed and every lease resolved.
unfoldable pub reap : ℕ → Option Driver → Db → Db
reap now d db =
    let reaped : Db = destroy_fleet now d db in
    record reaped {
      leases =
          map
            (λ (l : Lease). record l {
              state = if is_unresolved l then LeaseState.lost else l.state;
            })
            reaped.leases;
      events = log_lost now is_unresolved reaped.leases reaped.events;
    }

-- _reap_draining
unfoldable pub reap_draining : ℕ → Option Driver → Db → Db
reap_draining now d db =
    if not (is_draining db.run.state) then db else elim (drain_since db.events) [
      | none ↦ db
      | some since ↦ if ltb (now - since) stop_grace then db else reap now d db
    ]

-- Steps 3 and 4.
unfoldable pub check_policies : ℕ → Option Driver → Db → Db
check_policies now d db = check_auto_abort now d (check_duration now db)

-- Steps 5 and 6.
unfoldable pub wind_down : ℕ → Option Driver → Db → Db
wind_down now d db = maybe_complete_run now (reap_draining now d db)

-- Only the rescale of a step down raises, and by then the original rate is on the snapshot.
unfoldable pub broken_off : Db → Db
broken_off db = elim db.run.snapshot.rate_value [
  | none ↦ db
  | some current ↦
      with_original (original_rate db.run.snapshot.backpressure_original_rate current) db
]

-- A raise in the backpressure check ends the tick.
unfoldable pub after_backpressure : ℕ → Option Driver → Db → Result Db → Db
after_backpressure now d db (raised e) = broken_off db
after_backpressure now d db (ok db') = wind_down now d db'

unfoldable pub after_provisioning : ℕ → Option Driver → Settings → Result Db × Db → Db
after_provisioning now d settings (raised e, db) = db
after_provisioning now d settings (ok db', db) =
    let checked : Db = check_policies now d db' in
    after_backpressure now d checked (check_backpressure now settings checked)

-- The states that supervisor_tick selects.
abbrev pub is_active : RunState → Bool
is_active RunState.pending = false
is_active RunState.completed = false
is_active RunState.stopped = false
is_active RunState.failed = false
is_active _ = true

unfoldable pub supervise_run : ℕ → ℕ → Option Driver → Settings → Db → Db
supervise_run now boot_time d settings db =
    if is_active db.run.state
    then after_provisioning now d settings
        (check_provisioning now d (lapse_stale_leases now boot_time db))
    else db
