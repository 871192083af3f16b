-- ===== src/Lifecycle/Heartbeat.antt =====
-- server/lifecycle.py: record_heartbeat and the command that it answers.
-- The answered paused_s is not rounded to milliseconds. Whether the bearer token is near its expiry
-- (crypto.jwt_seconds_remaining) is an argument.
use stoker.Prelude.{
  ℕ, ◌+◌, ◌-◌, Bool, true, false, not, ◌&&◌, ◌||◌, Option, none, some, ◌∷◌, String, ltb, leb, ◌==◌,
  is_some, if◌then◌else◌,
}
use stoker.Engines.Apportion.{Share}
use stoker.Lifecycle.Model.{
  RunState, LeaseState, is_terminal, is_ready, is_lost, awaits_release, EngineImpl, Envelope,
  LeaseShare, Lease, Counters, EventKind, Run, Db,
}
use stoker.Lifecycle.Rows.{
  append_event, transition_run, find_lease, is_lease_holder, put_lease, clear_retarget,
}
use stoker.Lifecycle.Complete.{is_draining}

pub data Command : Type 0 where
  continue superseded drain pause : Command
  release : ℕ → Command
  retarget : Option Share → Command

pub record Reply : Type 0 where
  pub command : Command
  pub paused_s : Option ℕ
  pub fresh_jwt : Bool

-- The fields of a heartbeat; engine_impl and envelope are absent where they are not known values.
-- assigned_work is a whole number from 0 on, or absent, and assigned_reason has been cut to
-- _ASSIGNED_REASON_MAX characters.
pub record Payload : Type 0 where
  pub counters : Counters
  pub protocol_version : ℕ
  pub auth_failed : Bool
  pub assigned_work : Option ℕ
  pub assigned_reason : Option String
  pub engine_impl : Option EngineImpl
  pub envelope : Option Envelope
  pub jwt_near_expiry : Bool

-- store_assigned_work
unfoldable pub store_assigned_work : Option ℕ → Option String → LeaseShare → LeaseShare
store_assigned_work none reason s = s
store_assigned_work (some work) reason s = record s {
  assigned_work = some work;
  assigned_reason = if ltb 0 work then none else reason;
}

-- store_engine_report
unfoldable pub store_engine_report : Option EngineImpl → Option Envelope → LeaseShare → LeaseShare
store_engine_report none envelope s = s
store_engine_report (some impl) envelope s = record s {
  engine_impl = some impl;
  envelope = envelope;
}

-- paused_seconds: the finished pauses and the one under way.
abbrev pub pause_length : ℕ → Option ℕ → ℕ
pause_length now none = 0
pause_length now (some since) = now - since

abbrev pub paused_seconds : ℕ → Run → ℕ
paused_seconds now run = run.paused_s + pause_length now run.paused_at

abbrev pub is_paused : RunState → Bool
is_paused RunState.paused = true
is_paused _ = false

abbrev pub is_releasing : RunState → Bool
is_releasing RunState.releasing = true
is_releasing _ = false

-- _maybe_mark_running
unfoldable pub maybe_mark_running : ℕ → Db → Db
maybe_mark_running now db =
    if is_releasing db.run.state then transition_run now RunState.running none "system" db else db

-- A lost lease whose holder is back.
unfoldable pub recover : Run → Lease → Lease
recover run l = record l {
  state =
      if is_lost l.state
      then (if is_some run.t0 then LeaseState.running else LeaseState.ready)
      else l.state;
}

abbrev pub promoted : Run → (LeaseState → Bool) → Lease → Lease
promoted run test l = record l {
  state = if test l.state && is_some run.t0 then LeaseState.running else l.state;
}

-- No release is due: pause, else a pending retarget, else nothing new.
unfoldable pub steady_command : Run → Lease → Command × Lease
steady_command run l =
    if is_paused run.state
    then (pause, promoted run is_ready l)
    else if l.share_json.retarget
    then (retarget l.share_json.share, promoted run awaits_release (clear_retarget l))
    else (continue, promoted run is_ready l)

-- T0 is set, and this worker has not been promoted past it.
unfoldable pub release_command : ℕ → ℕ → Lease → Db → Command × Lease × Db
release_command now t0 l db =
    if leb t0 now
    then (
      release t0,
      record l { state = LeaseState.running },
      maybe_mark_running now (append_event now "agent" (EventKind.running l.slot) db),
    )
    else (release t0, l, db)

unfoldable pub serving_command : ℕ → Lease → Db → Option ℕ → Command × Lease × Db
serving_command now l db none = let (c, l') = steady_command db.run l in (c, l', db)
serving_command now l db (some t0) =
    let waiting = release_command now t0 l db in
    let steady : Command × Lease × Db = let (c, l') = steady_command db.run l in (c, l', db) in
    if awaits_release l.state then waiting else steady

abbrev pub is_ending : RunState → Bool
is_ending s = is_draining s || is_terminal s

-- _heartbeat_command: drain before release before pause before retarget before continue.
unfoldable pub heartbeat_command : ℕ → ℕ → Lease → Db → Command × Lease × Db
heartbeat_command now protocol_version l db =
    if is_ending db.run.state || not (protocol_version == 1)
    then (drain, l, db)
    else serving_command now (recover db.run l) db db.run.t0

-- The lease with what the heartbeat reports.
unfoldable pub reported : ℕ → Payload → Lease → Lease
reported now p l = record l {
  last_heartbeat_at = some now;
  share_json =
      store_engine_report p.engine_impl p.envelope
        (store_assigned_work p.assigned_work p.assigned_reason l.share_json);
}

-- The counters' sample, and the note of a HEC authentication failure.
unfoldable pub logged : ℕ → Payload → ℕ → Db → Db
logged now p slot db =
    let sampled : Db = record db {
      samples = record { sample_slot = slot; counters = p.counters } ∷ db.samples;
    } in
    if p.auth_failed
    then append_event now "agent" (EventKind.hec_auth_failed slot) sampled
    else sampled

abbrev pub is_drain : Command → Bool
is_drain drain = true
is_drain _ = false

abbrev pub reply_to : ℕ → Payload → Run → Command → Reply
reply_to now p run c = record {
  command = c;
  paused_s =
      if ltb 0 (paused_seconds now run) && not (is_drain c)
      then some (paused_seconds now run)
      else none;
  fresh_jwt = p.jwt_near_expiry;
}

abbrev pub superseded_reply : Reply
superseded_reply = record { command = superseded; paused_s = none; fresh_jwt = false }

abbrev pub written : Lease → Db → Db
written l db = record db { leases = put_lease l db.leases }

unfoldable pub answer : ℕ → Payload → Lease → Db → Reply × Db
answer now p l db =
    let (c, l', db') =
      heartbeat_command now p.protocol_version (reported now p l) (logged now p l.slot db) in
    (reply_to now p db'.run c, written l' db')

unfoldable pub record_heartbeat_found : ℕ → Option ℕ → Payload → Db → Option Lease → Reply × Db
record_heartbeat_found now lease_id p db none = (superseded_reply, db)
record_heartbeat_found now lease_id p db (some l) =
    if is_lease_holder l lease_id then answer now p l db else (superseded_reply, db)

unfoldable pub record_heartbeat : ℕ → ℕ → Option ℕ → Payload → Db → Reply × Db
record_heartbeat now slot lease_id p db =
    record_heartbeat_found now lease_id p db (find_lease slot db.leases)
