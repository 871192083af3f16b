-- ===== src/Lifecycle/Fencing.antt =====
-- The lookup of a slot's lease after a write, and repeated finals.
use stoker.Prelude.{
  ℕ, ◌≡◌, refl, sym, ap, subst, ◌∙◌, true, Option, none, some, List, [], ◌∷◌, arith, String,
}
use stoker.Lifecycle.Model.{RunState, Reason, LeaseState, Run, Db, Lease, Counters, Result, ok}
use stoker.Lifecycle.Rows.{transition_run, find_lease, put_lease}
use stoker.Lifecycle.Complete.{
  record_final, record_final_found, finalise, maybe_complete_run, finish, terminal_state_for,
  may_finalise, note_no_events,
}
use stoker.Lifecycle.Step.{kept}

pub find_lease-slot :
    (slot : ℕ) (ls : List Lease) (l : Lease) → find_lease slot ls ≡ some l → l.slot ≡ slot
unfolding find_lease
find_lease-slot slot [] l h = cc
find_lease-slot slot (m ∷ ms) l h = ground (arith, find_lease-slot slot ms l)

pub find_lease-put_lease :
    (slot : ℕ) (ls : List Lease) (l m : Lease)
    → find_lease slot ls ≡ some l
    → m.slot ≡ slot
    → find_lease slot (put_lease m ls) ≡ some m
unfolding find_lease put_lease
find_lease-put_lease slot [] l m f e = cc
find_lease-put_lease slot (x ∷ xs) l m f e = ground (arith, find_lease-put_lease slot xs l m)

note_no_events-keeps :
    (now : ℕ) (r : Reason) (db : Db)
    → ((note_no_events now r db).leases ≡ db.leases)
      × ((note_no_events now r db).run.totals ≡ db.run.totals)
unfolding note_no_events
note_no_events-keeps now r db = ground arith

finish-keeps :
    (now : ℕ) (s : RunState) (db : Db)
    → ((finish now s db).leases ≡ db.leases) × ((finish now s db).run.totals ≡ db.run.totals)
unfolding finish transition_run
finish-keeps now s db = note_no_events-keeps now _ db

pub maybe_complete_run-keeps :
    (now : ℕ) (db : Db)
    → ((maybe_complete_run now db).leases ≡ db.leases)
      × ((maybe_complete_run now db).run.totals ≡ db.run.totals)
unfolding maybe_complete_run
maybe_complete_run-keeps now db =
    ground (arith, finish-keeps now (terminal_state_for db.run db.run.end_reason db.leases) db)

finalise-done :
    (now : ℕ) (summary : Counters) (tail : List String) (l : Lease) (db : Db)
    → l.state ≡ LeaseState.done
    → (finalise now summary tail l db).run ≡ db.run
unfolding finalise
finalise-done now summary tail l db h = ground arith

finalise_found :
    (now slot : ℕ) (summary : Counters) (tail : List String) (l : Lease) (db : Db)
    → find_lease slot db.leases ≡ some l
    → find_lease slot (finalise now summary tail l db).leases
      ≡ some (record l { final_log_tail = tail; state = LeaseState.done })
unfolding finalise
finalise_found now slot summary tail l db f = ground (
  arith,
  find_lease-put_lease slot db.leases l (record l { final_log_tail = tail; state = l.state }) f
      (find_lease-slot slot db.leases l f),
  find_lease-put_lease slot db.leases l
      (record l { final_log_tail = tail; state = LeaseState.done }) f
      (find_lease-slot slot db.leases l f),
)

holder_done :
    (l : Lease) (id : Option ℕ) (tail : List String)
    → may_finalise (record l { final_log_tail = tail; state = LeaseState.done }) id
      ≡ may_finalise l id
holder_done l none tail = refl
holder_done l (some id) tail = refl

accepted_final :
    (now slot : ℕ) (summary : Counters) (tail : List String) (id : Option ℕ) (l : Lease) (db : Db)
    → find_lease slot db.leases ≡ some l
    → may_finalise l id ≡ true
    → record_final now slot summary tail id db
      ≡ ok (maybe_complete_run now (finalise now summary tail l db))
unfolding record_final record_final_found
accepted_final now slot summary tail id l db f m = rw f (rw m refl)

repeated_final :
    (now slot : ℕ) (summary : Counters) (tail : List String) (id : Option ℕ) (l : Lease) (db : Db)
    → find_lease slot db.leases ≡ some l
    → may_finalise l id ≡ true
    → l.state ≡ LeaseState.done
    → (kept db (record_final now slot summary tail id db)).run.totals ≡ db.run.totals
repeated_final now slot summary tail id l db f m e =
    ap (λ (r : Result Db). (kept db r).run.totals)
      (accepted_final now slot summary tail id l db f m)
    ∙ ((maybe_complete_run-keeps now (finalise now summary tail l db)).1
        ∙ ap (λ (r : Run). r.totals) (finalise-done now summary tail l db e))

-- A second final of a worker, with any summary, leaves the totals of the run as the first left them.
pub final-once :
    (now later slot : ℕ) (summary again : Counters) (tail tail' : List String) (id : Option ℕ)
    (l : Lease) (db : Db)
    → find_lease slot db.leases ≡ some l
    → may_finalise l id ≡ true
    → let first = kept db (record_final now slot summary tail id db) in
      (kept first (record_final later slot again tail' id first)).run.totals ≡ first.run.totals
final-once now later slot summary again tail tail' id l db f m =
    subst
      (λ (r : Result Db).
        (kept (kept db r) (record_final later slot again tail' id (kept db r))).run.totals
        ≡ (kept db r).run.totals)
      (sym (accepted_final now slot summary tail id l db f m))
      (repeated_final later slot again tail' id
        (record l { final_log_tail = tail; state = LeaseState.done })
        (maybe_complete_run now (finalise now summary tail l db))
        (ap (λ (ls : List Lease). find_lease slot ls)
            (maybe_complete_run-keeps now (finalise now summary tail l db)).0
          ∙ finalise_found now slot summary tail l db f)
        (holder_done l id tail ∙ m) refl)
