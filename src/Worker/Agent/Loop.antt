-- ===== src/Worker/Agent/Loop.antt =====
-- worker/stoker_agent/agent.py: _run_loop, with the control client that it heartbeats. Each round gets
-- what it reads of the clocks, the socket, the engine and the requests; the monotonic clock is read once
-- for the watchdog, once after a restart and once for the heartbeat. A round ends where drain is
-- requested: the loop breaks there, or tests it next. A drain that a signal requests is a shorter list of
-- rounds. The client is that of a managed worker.
use stoker.Prelude.{
  ℕ, ◌+◌, ◌-◌, Bool, false, not, ◌&&◌, Option, none, some, List, [], ◌∷◌, ltb, leb, if◌then◌else◌,
  is_some,
}
use stoker.Engines.Apportion.{count_interval}
use stoker.Worker.Control.{
  Client, Outcome, Reply, Beat, missed, taken_over, acked, heartbeat, should_pause, deadman_expired,
}
use stoker.Worker.Agent.{
  Plan, Agent, Reason, duration_complete, engine_exit, no_engine_output, hec_auth_failed, dead_man,
  exit_deadman, exit_no_output, exit_auth_standalone, request_drain, check_fencing, apply_command,
  apply_shape, same_mode, is_metrics,
}

-- Named for the reading's user. first and second are the requests of the heartbeat.
pub record Readings : Type 0 where
  pub wall : ℕ
  pub received : ℕ
  pub alive : Bool
  pub watch_at : ℕ
  pub restarts : Bool
  pub restarted_at : ℕ
  pub received_after : ℕ
  pub auth_failed : Bool
  pub deadman_at : ℕ
  pub fence_at : ℕ
  pub shape_at : ℕ
  pub beat_at : ℕ
  pub first : Outcome Reply
  pub second : Outcome Reply
  pub ack_at : ℕ
  pub fence_after : ℕ
  pub apply_at : ℕ
  pub metrics_restarts : Bool
  pub rewrites : Bool

-- The agent, its control client, and the loop's variables.
pub record Loop : Type 0 where
  pub agent : Agent
  pub client : Client
  pub last_received : ℕ
  pub last_progress : ℕ
  pub engine_restarts : ℕ
  pub next_hb : ℕ

abbrev pub is_draining : Loop → Bool
is_draining l = is_some l.agent.drain_reason

-- The next part of a round, unless the loop was left.
abbrev pub proceed : (Loop → Loop) → Loop → Loop
proceed part l = if is_draining l then l else part l

abbrev pub leave : Reason → Loop → Loop
leave why l = record l { agent = request_drain why l.agent }

-- A pause moves the end out, and a paused worker does not end.
abbrev pub is_due : Option ℕ → ℕ → Agent → Bool
is_due none wall a = false
is_due (some deadline) wall a = leb (deadline + a.paused_s) wall && not a.operator_paused

unfoldable pub check_deadline : Plan → Readings → Loop → Loop
unfolding request_drain
check_deadline plan r l =
    if is_due plan.deadline r.wall l.agent then leave duration_complete l else l

unfoldable pub quiet_watchdog : Readings → Loop → Loop
quiet_watchdog r l =
    if l.agent.operator_paused
    then record l { last_progress = r.watch_at; last_received = r.received }
    else l

unfoldable pub check_engine : Readings → Loop → Loop
unfolding request_drain
check_engine r l = if l.agent.engine_started && not r.alive then leave engine_exit l else l

abbrev pub watchdog_on : Plan → Bool
watchdog_on plan =
    ltb 0 plan.zero_output
    && not (same_mode plan.rate_mode count_interval)
    && not (is_metrics plan.engine)

abbrev pub fail_output : Loop → Loop
fail_output l = record l {
  agent = request_drain no_engine_output (record l.agent { exit_code = exit_no_output });
}

unfoldable pub stalled : Plan → Readings → Loop → Loop
unfolding request_drain
stalled plan r l =
    if plan.sweeping
    then fail_output l
    else if ltb l.engine_restarts plan.max_restarts
    then (let m : Loop = record l { engine_restarts = l.engine_restarts + 1 } in
        if r.restarts
        then record m { last_progress = r.restarted_at; last_received = r.received_after }
        else fail_output m)
    else fail_output l

-- The zero-output watchdog.
unfoldable pub watchdog : Plan → Readings → Loop → Loop
unfolding stalled
watchdog plan r l =
    if watchdog_on plan && r.alive
    then (if ltb l.last_received r.received
        then record l { last_received = r.received; last_progress = r.watch_at }
        else if leb plan.zero_output (r.watch_at - l.last_progress)
        then stalled plan r l
        else l)
    else l

unfoldable pub check_auth : Plan → Readings → Loop → Loop
unfolding request_drain
check_auth plan r l =
    if r.auth_failed
    then record l {
      agent = request_drain hec_auth_failed (
          if plan.standalone then record l.agent { exit_code = exit_auth_standalone } else l.agent);
    }
    else l

unfoldable pub check_dead_man : Plan → Readings → Loop → Loop
unfolding request_drain deadman_expired
check_dead_man plan r l =
    if not plan.standalone && deadman_expired r.deadman_at l.client
    then record l { agent = request_drain dead_man (record l.agent { exit_code = exit_deadman }) }
    else l

unfoldable pub fence : Plan → ℕ → Loop → Loop
unfolding check_fencing should_pause
fence plan now l = record l {
  agent = check_fencing plan.standalone (should_pause now l.client) l.agent;
}

unfoldable pub shape : Plan → Readings → Loop → Loop
unfolding apply_shape
shape plan r l = record l { agent = apply_shape plan r.shape_at l.agent }

-- After the heartbeat: an ack may lift the fence, and brings a command.
unfoldable pub after_beat : Plan → Readings → Beat → Loop → Loop
unfolding fence apply_command request_drain
after_beat plan r missed l = l
after_beat plan r taken_over l = leave Reason.taken_over l
after_beat plan r (acked reply) l =
    let m = fence plan r.fence_after l in
    record m { agent = apply_command plan r.apply_at r.metrics_restarts r.rewrites reply m.agent }

unfoldable pub beat : Plan → Readings → Loop → Loop
unfolding heartbeat after_beat
beat plan r l =
    let (answer, client) = heartbeat r.first r.second r.ack_at l.client in
    if leb l.next_hb r.beat_at
    then after_beat plan r answer
        (record l { client = client; next_hb = r.beat_at + plan.interval })
    else l

-- The parts of a round, in order.
abbrev pub parts : Plan → Readings → List (Loop → Loop)
parts plan r =
    check_deadline plan r
    ∷ quiet_watchdog r
    ∷ check_engine r
    ∷ watchdog plan r
    ∷ check_auth plan r
    ∷ check_dead_man plan r
    ∷ fence plan r.fence_at
    ∷ shape plan r
    ∷ beat plan r
    ∷ []

abbrev pub run_parts : List (Loop → Loop) → Loop → Loop
run_parts [] l = l
run_parts (p ∷ ps) l = run_parts ps (proceed p l)

unfoldable pub round : Plan → Readings → Loop → Loop
unfolding check_deadline quiet_watchdog check_engine watchdog check_auth check_dead_man fence shape
    beat
round plan r l = run_parts (parts plan r) l

-- The loop over the rounds given, until drain is requested.
unfoldable pub run_loop : Plan → List Readings → Loop → Loop
unfolding round
run_loop plan [] l = l
run_loop plan (r ∷ rs) l = proceed (λ m. run_loop plan rs (round plan r m)) l
