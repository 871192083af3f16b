-- ===== src/Lifecycle/Ending.antt =====
-- How a run ends: maybe_complete_run, a forced stop and a passed stop grace.
use stoker.Prelude.{
  ℕ, ◌<◌, ◌≡◌, ◌≢◌, refl, sym, ap, ◌∙◌, ◌⊎◌, Bool, true, false, Option, none, some, List, [], ◌∷◌,
  arith, String, ◌||◌, map, length, if_cases, subst,
}
use stoker.Lifecycle.Model.{RunState, Reason, is_terminal, Run, Db, Lease, Driver}
use stoker.Lifecycle.Rows.{transition_run, call_driver}
use stoker.Lifecycle.Complete.{
  any_live, any_done, any_lost, delivered_events, outcome_state, terminal_state_for, finish,
  maybe_complete_run,
}
use stoker.Lifecycle.Operator.{
  forced_state, live_totals, end_pause, force_finalise, stop_fleet, stop_run,
}

-- The outcome by delivery is completed only with deliveries and a worker that finished.
outcome-completed :
    (run : Run) (leases : List Lease)
    → outcome_state run leases ≡ RunState.completed
    → ((any_lost leases ≡ false) ⊎ (any_done leases ≡ true)) × (0 < delivered_events run)
unfolding outcome_state
outcome-completed run leases h = ground arith

terminal-completed :
    (run : Run) (reason : Option Reason) (leases : List Lease)
    → terminal_state_for run reason leases ≡ RunState.completed
    → ((any_lost leases ≡ false) ⊎ (any_done leases ≡ true)) × (0 < delivered_events run)
unfolding terminal_state_for
terminal-completed run none leases h = outcome-completed run leases h
terminal-completed run (some r) leases h = ground (arith, outcome-completed run leases)

finish_state :
    (now : ℕ) (terminal : RunState) (db : Db) → (finish now terminal db).run.state ≡ terminal
unfolding finish transition_run
finish_state now terminal db = refl

-- A run that maybe_complete_run turns into a completed one has no live lease, has one that is done,
-- and has delivered events.
pub maybe_complete_run-completed :
    (now : ℕ) (db : Db)
    → db.run.state ≢ RunState.completed
    → (maybe_complete_run now db).run.state ≡ RunState.completed
    → (any_live db.leases ≡ false) × (any_done db.leases ≡ true) × (0 < delivered_events db.run)
unfolding maybe_complete_run
maybe_complete_run-completed now db n h = ground (
  arith,
  finish_state now (terminal_state_for db.run db.run.end_reason db.leases) db,
  terminal-completed db.run db.run.end_reason db.leases,
)

forced_none_live :
    (ls : List Lease)
    → any_live (map (λ (l : Lease). record l { state = forced_state l.state }) ls) ≡ false
forced_none_live [] = refl
forced_none_live (l ∷ ls) = ground (arith, forced_none_live ls)

forced_resolved :
    (l : Lease) (ls : List Lease)
    → (any_done (map (λ (m : Lease). record m { state = forced_state m.state }) (l ∷ ls))
        || any_lost (map (λ (m : Lease). record m { state = forced_state m.state }) (l ∷ ls)))
      ≡ true
forced_resolved l ls = ground arith

pub drained_state :
    (now : ℕ) (db : Db)
    → db.run.state ≡ RunState.draining
    → any_live db.leases ≡ false
    → (any_done db.leases || any_lost db.leases) ≡ true
    → (maybe_complete_run now db).run.state ≡ terminal_state_for db.run db.run.end_reason db.leases
unfolding maybe_complete_run
drained_state now db s l r =
    ground (arith, finish_state now (terminal_state_for db.run db.run.end_reason db.leases) db)

forced_done_or_lost :
    (ls : List Lease)
    → 0 < length ls
    → (any_done (map (λ (m : Lease). record m { state = forced_state m.state }) ls)
        || any_lost (map (λ (m : Lease). record m { state = forced_state m.state }) ls))
      ≡ true
forced_done_or_lost [] h = absurd (omega arith)
forced_done_or_lost (l ∷ ls) h = forced_resolved l ls

operator_ends :
    (run : Run) (o : Option Reason) (leases : List Lease)
    → o ≡ some Reason.operator_stop
    → terminal_state_for run o leases ≡ RunState.stopped
unfolding terminal_state_for
operator_ends run none leases e = cc
operator_ends run (some r) leases e = ground arith

finalised_stopped :
    (now : ℕ) (db : Db)
    → db.run.state ≡ RunState.draining
    → db.run.end_reason ≡ some Reason.operator_stop
    → 0 < length db.leases
    → (force_finalise now db).run.state ≡ RunState.stopped
unfolding force_finalise
finalised_stopped now db s r h =
    drained_state now forced s (forced_none_live db.leases) (forced_done_or_lost db.leases h)
    ∙ operator_ends forced.run db.run.end_reason forced.leases r
  where
    forced : Db
    forced = record db {
      run = record db.run { totals = live_totals db.samples db.leases db.run.totals };
      leases = map (λ (l : Lease). record l { state = forced_state l.state }) db.leases;
    }

stop_fleet-keeps :
    (now : ℕ) (d : Driver) (force : Bool) (db : Db)
    → ((stop_fleet now d force db).run ≡ db.run) × ((stop_fleet now d force db).leases ≡ db.leases)
unfolding stop_fleet call_driver
stop_fleet-keeps now d force db = ground arith

-- A forced stop of a run that has not ended and has a lease ends it at once as stopped, whatever the
-- leases did and whether or not the driver answers.
forced_stop :
    (now : ℕ) (d : Driver) (actor : String) (db : Db)
    → is_terminal db.run.state ≡ false
    → 0 < length db.leases
    → (stop_run now d true actor db).run.state ≡ RunState.stopped
unfolding stop_run transition_run
forced_stop now d actor db t h =
    if_cases (λ (x : Db). x.run.state ≡ RunState.stopped) (is_terminal db.run.state) db
      (force_finalise now (stop_fleet now d true draining)) (λ ended. cc)
      λ live.
        let kept = stop_fleet-keeps now d true draining in
        finalised_stopped now (stop_fleet now d true draining) (ap (λ (r : Run). r.state) kept.0)
          (ap (λ (r : Run). r.end_reason) kept.0)
          (subst (λ (ls : List Lease). 0 < length ls) (sym kept.1) h)
  where
    draining : Db
    draining =
        transition_run now RunState.draining (some Reason.operator_stop) actor
          (record db { run = end_pause now db.run })
