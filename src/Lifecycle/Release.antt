-- ===== src/Lifecycle/Release.antt =====
-- server/lifecycle.py: evaluate_release, the gate that sets T0, and mark_ready, which tries it.
use stoker.Prelude.{
  ℕ, ◌+◌, Bool, true, false, not, ◌||◌, Option, none, some, map, any, count_if, is_some,
  if◌then◌else◌,
}
use stoker.Engines.Apportion
use stoker.Lifecycle.Model.{
  RunState, LeaseState, Reason, is_pending, is_ready, awaits_release, Lease, EventKind, Db, Result,
  ok, raised, bad_value, unknown_slot, not_holder, release_delay,
}
use stoker.Lifecycle.Rows.{append_event, transition_run, find_lease, is_lease_holder, put_lease}
use stoker.Lifecycle.Apportionment.{build_share_list, retarget_ready}

-- The states in which T0 may be set.
abbrev pub releasable : RunState → Bool
releasable RunState.provisioning = true
releasable RunState.preparing = true
releasable RunState.releasing = true
releasable _ = false

unfoldable pub lose_pending : Lease → Lease
lose_pending l = record l { state = if is_pending l.state then LeaseState.lost else l.state }

-- T0 is set and the fleet is released.
unfoldable pub release : ℕ → Db → Db
release now db =
    transition_run now RunState.releasing none "system"
      (record db { run = record db.run { t0 = some (now + release_delay) } })

-- The ready leases take over the whole rate; an unapportionable rate raises.
unfoldable pub partial_release : ℕ → Apportion.Result → Db → Result Bool × Db
partial_release now (Apportion.error e) db = (raised bad_value, db)
partial_release now (Apportion.ok shares) db = (
  ok true,
  release now (
      append_event now "system" EventKind.partial_release
        (record db { leases = retarget_ready shares db.leases })),
)

abbrev pub without_pending : Db → Db
without_pending db = record db { leases = map lose_pending db.leases }

abbrev pub degrade : Db → Db
degrade db = record db { run = record db.run { degraded = true } }

unfoldable pub force_release : ℕ → Db → Result Bool × Db
force_release now db =
    if db.run.snapshot.strict_release
    then (
      ok false,
      transition_run now RunState.failed (some Reason.strict_release_timeout) "system"
          (without_pending db),
    )
    else partial_release now
        (build_share_list db.run.snapshot.rate_mode db.run.snapshot.rate_value
          (count_if (λ (l : Lease). is_ready l.state) db.leases))
        (degrade (without_pending db))

unfoldable pub evaluate_release : ℕ → Bool → Db → Result Bool × Db
evaluate_release now force_partial db =
    if is_some db.run.t0
      || not (releasable db.run.state)
      || not (any (λ (l : Lease). is_ready l.state) db.leases)
    then (ok false, db)
    else if not (any (λ (l : Lease). is_pending l.state) db.leases)
    then (ok true, release now db)
    else if force_partial
    then force_release now db
    else (ok false, db)

abbrev pub heard : ℕ → Lease → Lease
heard now l = record l { last_heartbeat_at = some now }

-- The lease that a ready report leaves, and the event that it writes.
unfoldable pub become_ready : ℕ → Lease → Db → Db
become_ready now l db =
    if awaits_release l.state
    then append_event now "agent" (EventKind.ready l.slot) (record db {
      leases = put_lease (record (heard now l) { state = LeaseState.ready }) db.leases;
    })
    else record db { leases = put_lease (heard now l) db.leases }

unfoldable pub mark_ready_found : ℕ → Option ℕ → Db → Option Lease → Result Bool × Db
mark_ready_found now lease_id db none = (raised unknown_slot, db)
mark_ready_found now lease_id db (some l) =
    if is_lease_holder l lease_id
    then evaluate_release now false (become_ready now l db)
    else (raised not_holder, db)

unfoldable pub mark_ready : ℕ → ℕ → Option ℕ → Db → Result Bool × Db
mark_ready now slot lease_id db = mark_ready_found now lease_id db (find_lease slot db.leases)
