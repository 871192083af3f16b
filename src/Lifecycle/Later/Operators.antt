-- ===== src/Lifecycle/Later/Operators.antt =====
-- How the operations of an operator move the run row.
use stoker.Prelude.{
  ℕ, zero, suc, ◌+◌, ◌≤◌, ◌≡◌, refl, inl, Bool, true, false, Option, none, some, List, arith,
  String, if◌then◌else◌, map, length,
}
use stoker.Engines.Apportion
use stoker.Lifecycle.Model.{
  RunState, Reason, is_terminal, Run, Db, Lease, Counters, Driver, Result, ok, raised, Error,
  DriverCall, DriverOp, pause_deadline_headroom,
}
use stoker.Lifecycle.Rows.{transition_run, call_driver}
use stoker.Lifecycle.Apportionment.{build_share_list}
use stoker.Lifecycle.Heartbeat.{paused_seconds, is_paused}
use stoker.Lifecycle.Operator.{
  end_pause, live_totals, forced_state, force_finalise, stop_fleet, stop_run,
  extend_driver_deadline, is_running, pause_run, resume_run, rescale_run, effective_workers,
  scale_run, scale_checked, scale_fleet, scale_rows, unpriced,
}
use stoker.Lifecycle.Step.{kept}
use stoker.Lifecycle.Later.{phase, Later, Later-refl, Later-trans, phase-not-terminal}
use stoker.Lifecycle.Later.Parts.{maybe_complete_run-Later, SameLife-Later}

-- The row after an operation that may raise has moved forward.
pub data ResultLater (r : Run) : Result Db → Type 0 where
  was_raised : (e : Error) → ResultLater r (raised e)
  moved : (db : Db) → Later r db.run → ResultLater r (ok db)

pub kept-Later : (db : Db) (r : Result Db) → ResultLater db.run r → Later db.run (kept db r).run
kept-Later db (raised e) h = Later-refl db.run
kept-Later db (ok _) (moved x h) = h

unpriced-Later :
    (db : Db) (r : Apportion.Result) (k : List Apportion.Share → Db)
    → ((shares : List Apportion.Share) → Later db.run (k shares).run)
    → ResultLater db.run (unpriced r k)
unpriced-Later db (Apportion.error e) k h = was_raised _
unpriced-Later db (Apportion.ok shares) k h = moved _ (h shares)

pub before-ResultLater :
    {r r' : Run} → Later r r' → (x : Result Db) → ResultLater r' x → ResultLater r x
before-ResultLater l (raised e) h = was_raised e
before-ResultLater l (ok _) (moved db h) = moved db (Later-trans l h)

pub guarded-Later :
    {r : Run} (b : Bool) {x y : Result Db}
    → ResultLater r x
    → ResultLater r y
    → ResultLater r (if b then x else y)
guarded-Later true hx hy = hx
guarded-Later false hx hy = hy

pub rescale_run-Later :
    (now : ℕ) (rate : Option ℕ) (actor : String) (db : Db)
    → ResultLater db.run (rescale_run now rate actor db)
unfolding rescale_run
rescale_run-Later now rate actor db = guarded-Later _ (moved db (Later-refl db.run)) (
    unpriced-Later db (build_share_list db.run.snapshot.rate_mode rate (length db.leases)) _
      λ shares. SameLife-Later (record {
        same_state = refl;
        same_t0 = refl;
        same_end_reason = refl;
        same_ended_at = refl;
      }))

pub scale_rows-Later :
    (now workers : ℕ) (ids : ℕ → ℕ) (actor : String) (db : Db)
    → ResultLater db.run (scale_rows now workers ids actor db)
unfolding scale_rows
scale_rows-Later now workers ids actor db =
    unpriced-Later db
      (build_share_list db.run.snapshot.rate_mode db.run.snapshot.rate_value workers) _
      λ shares.
        SameLife-Later (record {
          same_state = refl;
          same_t0 = refl;
          same_end_reason = refl;
          same_ended_at = refl;
        })

scale_fleet-Later :
    (now : ℕ) (d : Driver) (workers : ℕ) (ids : ℕ → ℕ) (actor : String) (db : Db)
    → ResultLater db.run (scale_fleet now d workers ids actor db)
unfolding scale_fleet call_driver
scale_fleet-Later now d workers ids actor db =
    guarded-Later _ (scale_rows-Later now workers ids actor db) (
      guarded-Later _
        (scale_rows-Later now workers ids actor
          (call_driver now (DriverCall.scale workers) DriverOp.scale_op true db))
        (was_raised _))

scale_checked-Later :
    (now : ℕ) (d : Driver) (workers : ℕ) (ids : ℕ → ℕ) (actor : String) (db : Db) (o : Option ℕ)
    → ResultLater db.run (scale_checked now d workers ids actor db o)
unfolding scale_checked
scale_checked-Later now d workers ids actor db none =
    guarded-Later _ (was_raised _) (scale_fleet-Later now d workers ids actor db)
scale_checked-Later now d workers ids actor db (some zero) =
    guarded-Later _ (was_raised _) (scale_fleet-Later now d workers ids actor db)
scale_checked-Later now d workers ids actor db (some (suc n)) =
    guarded-Later _ (was_raised _) (scale_fleet-Later now d workers ids actor db)

pub scale_run-Later :
    (now : ℕ) (d : Driver) (workers : ℕ) (ids : ℕ → ℕ) (actor : String) (db : Db)
    → ResultLater db.run (scale_run now d workers ids actor db)
unfolding scale_run
scale_run-Later now d workers ids actor db = guarded-Later _ (was_raised _) (
    guarded-Later _ (moved db (Later-refl db.run)) (
      scale_checked-Later now d (effective_workers db.run.snapshot.engine workers) ids actor db
        db.run.snapshot.workers))

run-extend :
    (now : ℕ) (d : Driver) (paused : ℕ) (db : Db)
    → (extend_driver_deadline now d paused db).run ≡ db.run
unfolding extend_driver_deadline call_driver
run-extend now d paused db = ground arith

live_at : (s : RunState) → is_running s ≡ true → (is_terminal s ≡ false) × (phase s ≡ 4)
live_at s h = ground arith

paused_at : (s : RunState) → is_paused s ≡ true → (is_terminal s ≡ false) × (phase s ≡ 4)
paused_at s h = ground arith

-- A transition of a run that has not ended, with the accounting of its pauses changed.
moved_pause-Later :
    (now : ℕ) (new_state : RunState) (d : Driver) (paused : ℕ) (reason : Option Reason)
    (actor : String) (at : Option ℕ) (sum : ℕ) (db : Db)
    → is_terminal db.run.state ≡ false
    → phase db.run.state ≤ phase new_state
    → Later db.run
        (extend_driver_deadline now d paused (
          transition_run now new_state reason actor
            (record db { run = record db.run { paused_at = at; paused_s = sum } }))).run
unfolding transition_run extend_driver_deadline call_driver
moved_pause-Later now new_state d paused reason actor at sum db h p = record {
  forward = ground arith;
  t0_once = ground arith;
  ended_stays = inl h;
}

pub pause_run-Later :
    (now : ℕ) (d : Driver) (actor : String) (db : Db)
    → Later db.run (kept db (pause_run now d actor db)).run
unfolding pause_run
pause_run-Later now d actor db = ground (
  arith,
  live_at db.run.state,
  moved_pause-Later now RunState.paused d
      (paused_seconds now (record db.run { paused_at = some now }) + pause_deadline_headroom) none
      actor (some now) db.run.paused_s db,
  Later-refl db.run,
)

pub resume_run-Later :
    (now : ℕ) (d : Driver) (actor : String) (db : Db)
    → Later db.run (kept db (resume_run now d actor db)).run
unfolding resume_run
resume_run-Later now d actor db = ground (
  arith,
  paused_at db.run.state,
  moved_pause-Later now RunState.running d (end_pause now db.run).paused_s none actor none
      (end_pause now db.run).paused_s db,
  Later-refl db.run,
)

pub stop_fleet-run :
    (now : ℕ) (d : Driver) (force : Bool) (db : Db) → (stop_fleet now d force db).run ≡ db.run
unfolding stop_fleet call_driver
stop_fleet-run now d force db = ground arith

stopping-Later :
    (now : ℕ) (d : Driver) (force : Bool) (actor : String) (at : Option ℕ) (sum : ℕ) (db : Db)
    → is_terminal db.run.state ≡ false
    → phase db.run.state ≤ 5
    → Later db.run
        (stop_fleet now d force (
          transition_run now RunState.draining
            (some Reason.operator_stop)
            actor
            (record db { run = record db.run { paused_at = at; paused_s = sum } }))).run
unfolding transition_run stop_fleet call_driver
stopping-Later now d force actor at sum db h p = record {
  forward = ground arith;
  t0_once = ground arith;
  ended_stays = inl h;
}

totals-Later : (r : Run) (c : Counters) → Later r (record r { totals = c })
totals-Later r c =
    SameLife-Later
      (record { same_state = refl; same_t0 = refl; same_end_reason = refl; same_ended_at = refl })

force_finalise-Later : (now : ℕ) (db : Db) → Later db.run (force_finalise now db).run
unfolding force_finalise
force_finalise-Later now db =
    Later-trans (totals-Later db.run (live_totals db.samples db.leases db.run.totals)) (
      maybe_complete_run-Later now (record db {
        run = record db.run { totals = live_totals db.samples db.leases db.run.totals };
        leases = map (λ (l : Lease). record l { state = forced_state l.state }) db.leases;
      }))

abbrev stopping : ℕ → Driver → Bool → String → Db → Db
stopping now d force actor db = stop_fleet now d force (
    transition_run now RunState.draining (some Reason.operator_stop) actor
      (record db { run = end_pause now db.run }))

forced-Later :
    (now : ℕ) (d : Driver) (force : Bool) (actor : String) (db : Db)
    → is_terminal db.run.state ≡ false
    → phase db.run.state ≤ 5
    → Later db.run (force_finalise now (stopping now d force actor db)).run
forced-Later now d force actor db h p =
    Later-trans (stopping-Later now d force actor none (end_pause now db.run).paused_s db h p)
      (force_finalise-Later now (stopping now d force actor db))

pub stop_run-Later :
    (now : ℕ) (d : Driver) (force : Bool) (actor : String) (db : Db)
    → Later db.run (stop_run now d force actor db).run
unfolding stop_run
stop_run-Later now d force actor db = ground (
  arith,
  phase-not-terminal db.run.state,
  stopping-Later now d force actor none (end_pause now db.run).paused_s db,
  forced-Later now d force actor db,
  Later-refl db.run,
)
