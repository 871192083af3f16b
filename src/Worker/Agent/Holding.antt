-- ===== src/Worker/Agent/Holding.antt =====
-- The run loop, and when it holds the output.
use stoker.Prelude.{
  ℕ, Bool, true, false, not, ◌&&◌, ◌||◌, ◌≡◌, List, ltb, leb, arith, if_cases, ◌+◌, ◌-◌,
}
use stoker.Worker.Control.{
  Beat, missed, taken_over, acked, should_pause, heartbeat, deadman_expired,
}
use stoker.Worker.Agent.{
  Plan, Agent, Reason, start_generating, exit_no_output, exit_auth_standalone, exit_deadman,
  no_engine_output, hec_auth_failed, dead_man,
}
use stoker.Worker.Agent.Held.{
  IsHeld, is_held, check_fencing-IsHeld, request_drain-IsHeld, exit-IsHeld, apply_command-IsHeld,
  apply_shape-IsHeld,
}
use stoker.Worker.Agent.Rounds.{AllKeep, run_loop-Keeps}
use stoker.Worker.Agent.Loop.{
  Readings, Loop, parts, is_due, check_deadline, quiet_watchdog, check_engine, watchdog_on,
  fail_output, stalled, watchdog, check_auth, check_dead_man, fence, shape, after_beat, beat,
  run_loop,
}

abbrev LoopIsHeld : Loop → Type 0
LoopIsHeld l = IsHeld l.agent

fail_output-IsHeld : (l : Loop) → LoopIsHeld l → LoopIsHeld (fail_output l)
fail_output-IsHeld l h =
    request_drain-IsHeld no_engine_output _ (exit-IsHeld exit_no_output l.agent h)

module _ (plan : Plan) (r : Readings) (l : Loop) (h : LoopIsHeld l) where
  check_deadline-IsHeld : LoopIsHeld (check_deadline plan r l)
  unfolding check_deadline
  check_deadline-IsHeld =
      if_cases LoopIsHeld (is_due plan.deadline r.wall l.agent) _ _
        (λ _. request_drain-IsHeld _ l.agent h) (λ _. h)

  quiet_watchdog-IsHeld : LoopIsHeld (quiet_watchdog r l)
  unfolding quiet_watchdog
  quiet_watchdog-IsHeld = if_cases LoopIsHeld l.agent.operator_paused _ _ (λ _. h) (λ _. h)

  check_engine-IsHeld : LoopIsHeld (check_engine r l)
  unfolding check_engine
  check_engine-IsHeld =
      if_cases LoopIsHeld (l.agent.engine_started && not r.alive) _ _
        (λ _. request_drain-IsHeld _ l.agent h) (λ _. h)

  stalled-IsHeld : LoopIsHeld (stalled plan r l)
  unfolding stalled
  stalled-IsHeld =
      if_cases LoopIsHeld plan.sweeping _ _ (λ _. fail_output-IsHeld l h)
        (λ _.
          if_cases LoopIsHeld (ltb l.engine_restarts plan.max_restarts) _ _
            (λ _.
              if_cases LoopIsHeld r.restarts _ _ (λ _. h)
                (λ _. fail_output-IsHeld (record l { engine_restarts = l.engine_restarts + 1 }) h))
            (λ _. fail_output-IsHeld l h))

  watchdog-IsHeld : LoopIsHeld (watchdog plan r l)
  unfolding watchdog
  watchdog-IsHeld =
      if_cases LoopIsHeld (watchdog_on plan && r.alive) _ _
        (λ _.
          if_cases LoopIsHeld (ltb l.last_received r.received) _ _ (λ _. h)
            (λ _.
              if_cases LoopIsHeld (leb plan.zero_output (r.watch_at - l.last_progress)) _ _
                (λ _. stalled-IsHeld) (λ _. h)))
        (λ _. h)

  check_auth-IsHeld : LoopIsHeld (check_auth plan r l)
  unfolding check_auth
  check_auth-IsHeld =
      if_cases LoopIsHeld r.auth_failed _ _
        (λ _. request_drain-IsHeld hec_auth_failed _ (
          if_cases IsHeld plan.standalone _ _ (λ _. exit-IsHeld exit_auth_standalone l.agent h)
            (λ _. h)))
        (λ _. h)

  check_dead_man-IsHeld : LoopIsHeld (check_dead_man plan r l)
  unfolding check_dead_man
  check_dead_man-IsHeld =
      if_cases LoopIsHeld (not plan.standalone && deadman_expired r.deadman_at l.client) _ _
        (λ _. request_drain-IsHeld dead_man _ (exit-IsHeld exit_deadman l.agent h)) (λ _. h)

  fence-IsHeld : (now : ℕ) → LoopIsHeld (fence plan now l)
  unfolding fence
  fence-IsHeld now = check_fencing-IsHeld plan.standalone (should_pause now l.client) l.agent h

  shape-IsHeld : LoopIsHeld (shape plan r l)
  unfolding shape
  shape-IsHeld = apply_shape-IsHeld plan r.shape_at l.agent h

after_beat-IsHeld :
    (plan : Plan) (r : Readings) (b : Beat) (l : Loop)
    → LoopIsHeld l
    → LoopIsHeld (after_beat plan r b l)
unfolding after_beat
after_beat-IsHeld plan r missed l h = h
after_beat-IsHeld plan r taken_over l h = request_drain-IsHeld Reason.taken_over l.agent h
after_beat-IsHeld plan r (acked reply) l h =
    apply_command-IsHeld plan r.apply_at r.metrics_restarts r.rewrites reply _
      (fence-IsHeld plan r l h r.fence_after)

beat-IsHeld : (plan : Plan) (r : Readings) (l : Loop) → LoopIsHeld l → LoopIsHeld (beat plan r l)
unfolding beat
beat-IsHeld plan r l h =
    if_cases LoopIsHeld (leb l.next_hb r.beat_at) _ _
      (λ _. after_beat-IsHeld plan r (heartbeat r.first r.second r.ack_at l.client).0 _ h) (λ _. h)

parts-IsHeld : (plan : Plan) (r : Readings) → AllKeep LoopIsHeld (parts plan r)
parts-IsHeld plan r = (
  check_deadline-IsHeld plan r,
  (
    quiet_watchdog-IsHeld plan r,
    (
      check_engine-IsHeld plan r,
      (
        watchdog-IsHeld plan r,
        (
          check_auth-IsHeld plan r,
          (
            check_dead_man-IsHeld plan r,
            (
              (λ m k. fence-IsHeld plan r m k r.fence_at),
              (shape-IsHeld plan r, (beat-IsHeld plan r, tt)),
            ),
          ),
        ),
      ),
    ),
  ),
)

start_generating-IsHeld :
    (anchor : ℕ) (starts : Bool) (a : Agent)
    → is_held a ≡ false
    → (a.engine_started || starts) ≡ true
    → IsHeld (start_generating anchor starts a)
unfolding start_generating
start_generating-IsHeld anchor starts a h s = ground arith

-- From T0 on, after any rounds of the run loop, whatever the clocks, the engine, the collector and the
-- control plane do: the bucket of a worker that was not held before is paused exactly if the worker is
-- fenced or the operator has paused the run, and the state that it reports is paused exactly then.
pub run_loop-IsHeld :
    (plan : Plan) (anchor : ℕ) (starts : Bool) (rs : List Readings) (l : Loop)
    → is_held l.agent ≡ false
    → (l.agent.engine_started || starts) ≡ true
    → IsHeld (run_loop plan rs (record l { agent = start_generating anchor starts l.agent })).agent
run_loop-IsHeld plan anchor starts rs l h s =
    run_loop-Keeps LoopIsHeld plan (parts-IsHeld plan) rs
      (record l { agent = start_generating anchor starts l.agent })
      (start_generating-IsHeld anchor starts l.agent h s)
