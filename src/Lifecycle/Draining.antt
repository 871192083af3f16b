-- ===== src/Lifecycle/Draining.antt =====
-- The drain of a run: its stop grace, over sequences of steps.
use stoker.Prelude.{
  ℕ, ◌-◌, ◌≤◌, ◌<◌, ◌≡◌, refl, sym, ap, ◌∙◌, Bool, true, false, Option, none, some, List, [], ◌∷◌,
  arith, ◌||◌, if◌then◌else◌, map, length, subst, length-map,
}
use stoker.Lifecycle.Model.{
  ok, EventKind, RunState, Reason, LeaseState, is_terminal, Run, Db, Lease, Driver, Event,
  stop_grace,
}
use stoker.Lifecycle.Rows.{call_driver}
use stoker.Lifecycle.Complete.{
  any_live, any_done, any_lost, outcome_state, terminal_state_for, maybe_complete_run,
}
use stoker.Lifecycle.Ending.{drained_state}
use stoker.Lifecycle.Backpressure.{Settings, check_backpressure}
use stoker.Lifecycle.Supervisor.{
  lapses, lapse_lease, supervise_run, lapse_stale_leases, check_provisioning, check_policies,
  check_duration, check_auto_abort, after_provisioning, after_backpressure, is_unresolved, log_lost,
  destroy_fleet, reap, reap_draining, drain_since, wind_down,
}

resolved_none_live :
    (ls : List Lease)
    → any_live (
        map
          (λ (l : Lease). record l { state = if is_unresolved l then LeaseState.lost else l.state })
          ls)
      ≡ false
resolved_none_live [] = refl
resolved_none_live (l ∷ ls) = ground (arith, resolved_none_live ls)

reaped_done_or_lost :
    (ls : List Lease)
    → 0 < length ls
    → (any_done (
          map
            (λ (l : Lease). record l {
              state = if is_unresolved l then LeaseState.lost else l.state;
            })
            ls)
        || any_lost (
            map
              (λ (l : Lease). record l {
                state = if is_unresolved l then LeaseState.lost else l.state;
              })
              ls))
      ≡ true
reaped_done_or_lost [] h = absurd (omega arith)
reaped_done_or_lost (l ∷ ls) h = ground arith

destroy_fleet-keeps :
    (now : ℕ) (d : Option Driver) (db : Db)
    → ((destroy_fleet now d db).run ≡ db.run) × ((destroy_fleet now d db).leases ≡ db.leases)
unfolding destroy_fleet call_driver
destroy_fleet-keeps now none db = (refl, refl)
destroy_fleet-keeps now (some d) db = ground arith

outcome_ended : (run : Run) (ls : List Lease) → is_terminal (outcome_state run ls) ≡ true
unfolding outcome_state
outcome_ended run ls = ground arith

terminal_ended :
    (run : Run) (o : Option Reason) (ls : List Lease)
    → is_terminal (terminal_state_for run o ls) ≡ true
unfolding terminal_state_for
terminal_ended run none ls = outcome_ended run ls
terminal_ended run (some r) ls = ground (arith, outcome_ended run ls)

reaped_ends :
    (now : ℕ) (d : Option Driver) (db : Db)
    → db.run.state ≡ RunState.draining
    → 0 < length db.leases
    → is_terminal (maybe_complete_run now (reap now d db)).run.state ≡ true
unfolding reap
reaped_ends now d db s h =
    let kept = destroy_fleet-keeps now d db in
    ap is_terminal (
      drained_state now (reap now d db) (ap (λ (r : Run). r.state) kept.0 ∙ s)
        (resolved_none_live (destroy_fleet now d db).leases)
        (reaped_done_or_lost (destroy_fleet now d db).leases
          (subst (λ (ls : List Lease). 0 < length ls) (sym kept.1) h)))
    ∙ terminal_ended (reap now d db).run (reap now d db).run.end_reason (reap now d db).leases

wind_down_ends :
    (now since : ℕ) (d : Option Driver) (db : Db)
    → db.run.state ≡ RunState.draining
    → 0 < length db.leases
    → drain_since db.events ≡ some since
    → stop_grace ≤ now - since
    → is_terminal (wind_down now d db).run.state ≡ true
unfolding wind_down reap_draining
wind_down_ends now since d db s h e g = ground (arith, reaped_ends now d db)

drain_since-log_lost :
    (now : ℕ) (test : Lease → Bool) (ls : List Lease) (es : List Event)
    → drain_since (log_lost now test ls es) ≡ drain_since es
unfolding drain_since log_lost
drain_since-log_lost now test [] es = refl
drain_since-log_lost now test (l ∷ ls) es =
    drain_since-log_lost now test ls (
      if test l
      then record { ts = now; actor = "system"; kind = EventKind.lease_lost l.slot } ∷ es
      else es)
    ∙ ground arith

-- None of the earlier checks of a tick touches a draining run.
unprovisioned :
    (now : ℕ) (d : Option Driver) (db : Db)
    → db.run.state ≡ RunState.draining
    → check_provisioning now d db ≡ (ok db, db)
unfolding check_provisioning
unprovisioned now d db s = ground arith

unchecked :
    (now : ℕ) (d : Option Driver) (db : Db)
    → db.run.state ≡ RunState.draining
    → check_policies now d db ≡ db
unfolding check_policies check_duration check_auto_abort
unchecked now d db s = ground arith

unpressed :
    (now : ℕ) (settings : Settings) (db : Db)
    → db.run.state ≡ RunState.draining
    → check_backpressure now settings db ≡ ok db
unfolding check_backpressure
unpressed now settings db s = ground arith

rest_of_tick :
    (now : ℕ) (d : Option Driver) (settings : Settings) (db : Db)
    → db.run.state ≡ RunState.draining
    → after_provisioning now d settings (check_provisioning now d db) ≡ wind_down now d db
unfolding after_provisioning after_backpressure
rest_of_tick now d settings db s =
    ap (after_provisioning now d settings) (unprovisioned now d db s)
    ∙ ap (λ (x : Db). after_backpressure now d x (check_backpressure now settings x))
        (unchecked now d db s)
    ∙ ap (after_backpressure now d db) (unpressed now settings db s)

run-lapsed : (now boot_time : ℕ) (db : Db) → (lapse_stale_leases now boot_time db).run ≡ db.run
unfolding lapse_stale_leases
run-lapsed now boot_time db = refl

-- One supervisor tick over a draining run only winds it down.
tick_of_draining :
    (now boot_time : ℕ) (d : Option Driver) (settings : Settings) (db : Db)
    → db.run.state ≡ RunState.draining
    → supervise_run now boot_time d settings db
      ≡ wind_down now d (lapse_stale_leases now boot_time db)
unfolding supervise_run
tick_of_draining now boot_time d settings db s = ground (
  arith,
  rest_of_tick now d settings (lapse_stale_leases now boot_time db)
      (ap (λ (r : Run). r.state) (run-lapsed now boot_time db) ∙ s),
)

length-lapsed :
    (now boot_time : ℕ) (db : Db)
    → length (lapse_stale_leases now boot_time db).leases ≡ length db.leases
unfolding lapse_stale_leases
length-lapsed now boot_time db = length-map (lapse_lease now boot_time db.run.created_at) db.leases

drain_since-lapsed :
    (now boot_time : ℕ) (db : Db)
    → drain_since (lapse_stale_leases now boot_time db).events ≡ drain_since db.events
unfolding lapse_stale_leases
drain_since-lapsed now boot_time db =
    drain_since-log_lost now (lapses now boot_time db.run.created_at) db.leases db.events

-- A supervisor tick ends every draining run that has leases and whose last transition to draining is
-- at least the stop grace ago: whatever its workers and the driver do, the run is terminal after it.
pub supervise_run-ends_draining :
    (now boot_time since : ℕ) (d : Option Driver) (settings : Settings) (db : Db)
    → db.run.state ≡ RunState.draining
    → 0 < length db.leases
    → drain_since db.events ≡ some since
    → stop_grace ≤ now - since
    → is_terminal (supervise_run now boot_time d settings db).run.state ≡ true
supervise_run-ends_draining now boot_time since d settings db s n e g =
    let lapsed = lapse_stale_leases now boot_time db in
    rw (tick_of_draining now boot_time d settings db s) (
      wind_down_ends now since d lapsed
        (ap (λ (r : Run). r.state) (run-lapsed now boot_time db) ∙ s)
        (omega (arith, length-lapsed now boot_time db)) (drain_since-lapsed now boot_time db ∙ e) g)
