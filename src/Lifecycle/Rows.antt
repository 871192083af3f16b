-- ===== src/Lifecycle/Rows.antt =====
-- server/lifecycle.py: the audit trail, state transitions, lookups and the share of a lease.
use stoker.Prelude.{
  ℕ, Bool, true, false, not, ◌&&◌, ◌||◌, Option, none, some, List, [], ◌∷◌, String, ◌==◌,
  if◌then◌else◌, is_some,
}
use stoker.Engines.Apportion.{Share}
use stoker.Lifecycle.Model.{
  RunState, Reason, is_terminal, rank, reason_rank, Lease, EventKind, Event, DriverOp, DriverCall,
  Run, Db,
}

-- append_event; the latest event comes first.
abbrev pub append_event : ℕ → String → EventKind → Db → Db
append_event now actor kind db = record db {
  events = record { ts = now; actor = actor; kind = kind } ∷ db.events;
}

abbrev pub reason_differs : Option Reason → Option Reason → Bool
reason_differs none old = false
reason_differs (some r) none = true
reason_differs (some r) (some s) = not (reason_rank r == reason_rank s)

abbrev pub given_or : Option Reason → Option Reason → Option Reason
given_or none old = old
given_or (some r) old = some r

-- The run after transition_run. Writing an equal state or reason changes nothing.
pub transitioned : ℕ → RunState → Option Reason → Run → Run
transitioned now new_state end_reason run = record run {
  state = new_state;
  end_reason = given_or end_reason run.end_reason;
  ended_at = if is_terminal new_state && not (is_some run.ended_at) then some now else run.ended_at;
}

-- Does transition_run change anything, and so write an event?
pub changes : RunState → Option Reason → Run → Bool
changes new_state end_reason run =
    not (rank run.state == rank new_state)
    || reason_differs end_reason run.end_reason
    || is_terminal new_state && not (is_some run.ended_at)

unfoldable pub transition_run : ℕ → RunState → Option Reason → String → Db → Db
unfolding transitioned changes
transition_run now new_state end_reason actor db =
    let event : Event = record {
      ts = now;
      actor = actor;
      kind = EventKind.state db.run.state new_state end_reason;
    } in
    record db {
      run = transitioned now new_state end_reason db.run;
      events = if changes new_state end_reason db.run then event ∷ db.events else db.events;
    }

-- find_lease: the lease of a slot.
unfoldable pub find_lease : ℕ → List Lease → Option Lease
find_lease slot [] = none
find_lease slot (l ∷ ls) = if l.slot == slot then some l else find_lease slot ls

-- is_lease_holder; a caller may present no lease id.
abbrev pub is_lease_holder : Lease → Option ℕ → Bool
is_lease_holder l none = false
is_lease_holder l (some id) = l.lease_id == id

-- Writes a changed lease row back; (run_id, slot) is unique.
unfoldable pub put_lease : Lease → List Lease → List Lease
put_lease l [] = []
put_lease l (m ∷ ms) = if m.slot == l.slot then l ∷ ms else m ∷ put_lease l ms

-- mark_retarget: the new share and the marker; what the worker reported is carried over.
unfoldable pub mark_retarget : Lease → Share → Lease
mark_retarget l share = record l {
  share_json = record l.share_json { share = some share; retarget = true };
}

-- clear_retarget
unfoldable pub clear_retarget : Lease → Lease
clear_retarget l = record l { share_json = record l.share_json { retarget = false } }

-- A request to the driver; a failure is recorded, not raised.
unfoldable pub call_driver : ℕ → DriverCall → DriverOp → Bool → Db → Db
call_driver now call op succeeds db =
    let failure : Event = record { ts = now; actor = "system"; kind = EventKind.driver_error op } in
    record db {
      calls = call ∷ db.calls;
      events = if succeeds then db.events else failure ∷ db.events;
    }
