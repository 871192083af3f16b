-- ===== src/Worker/Examples/Agents.antt =====
-- A worker of two events a one_second, its control client and its run loop.
use stoker.Prelude.{ℕ, ◌+◌, ◌*◌, ◌≤◌, ◌≡◌, refl, true, false, none, some, List, [], ◌∷◌, arith}
use stoker.Prelude.Int.{pos}
use stoker.Engines.Apportion.{eps}
use stoker.Worker.Pacing.{Bucket}
use stoker.Worker.Control.{
  Outcome, disconnected, failed, returned, Attempt, dead_man, overflowed, delay, post_loop,
  post_with_backoff, Command, continue, pause, Reply, new_client, should_pause, deadman_expired,
  Round, final,
}
use stoker.Worker.Control.Backoff.{is_settled, post_with_backoff-ends}
use stoker.Worker.Control.Final.{AllInTime, requests, final-in_time}
use stoker.Worker.Control.Fence.{Exchange, run_beats, fenced_iff}
use stoker.Worker.Agent.{Agent, AgentState, Plan, Engine, ExitCode, start_generating, apply_command}
use stoker.Worker.Agent.Held.{IsHeld}
use stoker.Worker.Agent.Holding.{run_loop-IsHeld}
use stoker.Worker.Agent.Loop.{Readings, Loop, run_loop}
use stoker.Worker.Agent.Resume.{ReleasesAfresh, resume-no_burst}

abbrev one_second : ℕ
one_second = 1000000

abbrev lost : ℕ → Attempt ℕ
lost now = record { outcome = failed; now = now; jitter = 1000000 }

abbrev two_losses : List (Attempt ℕ)
two_losses = lost (2 * one_second) ∷ lost (4 * one_second) ∷ []

-- A dead-man window of half a one_second, and a control plane that cannot be reached.
post_with_backoff-ends_example :
    is_settled (post_with_backoff 500000 one_second (lost one_second ∷ two_losses)).0 ≡ true
unfolding delay
post_with_backoff-ends_example =
    post_with_backoff-ends 500000 one_second (lost one_second) two_losses (omega arith)
      (omega arith) (omega arith)

gives_up : (post_with_backoff 500000 one_second (lost one_second ∷ two_losses)).0 ≡ dead_man
unfolding post_with_backoff
gives_up = refl

-- Attempt 1024, with the dead-man window not over yet: 2 ** 1024 is no float.
overflows : (post_loop (20000 * one_second) 0 1024 (lost (16000 * one_second) ∷ [])).0 ≡ overflowed
unfolding post_loop
overflows = refl

abbrev slow : ℕ → Round
slow k = record {
  before = k * 3 * one_second;
  succeeds = false;
  after = k * 3 * one_second + one_second;
}

final-in_time_example :
    AllInTime
      (30 * one_second)
      (5 * one_second)
      (final (30 * one_second) (some (5 * one_second)) slow).1
    × (requests (final (30 * one_second) (some (5 * one_second)) slow).1 ≤ 3)
final-in_time_example = final-in_time (30 * one_second) (5 * one_second) slow

abbrev reply : Command → Reply
reply c = record { jwt = none; command = some c; t0 = none; paused_s = some 0; offer = none }

-- An ack after a lost connection, and a missed heartbeat.
abbrev exchanges : List Exchange
exchanges =
    record { first = disconnected; second = returned (reply continue); now = 5 * one_second }
    ∷ record { first = failed; second = failed; now = 10 * one_second }
    ∷ []

fenced_iff_example :
    (should_pause (36 * one_second) (run_beats exchanges (new_client 1 (600 * one_second) 0))
      ≡ true)
    × (deadman_expired (36 * one_second) (run_beats exchanges (new_client 1 (600 * one_second) 0))
        ≡ false)
fenced_iff_example = fenced_iff 1 0 (600 * one_second) (36 * one_second) exchanges (omega arith)

abbrev plan : Plan
plan = record {
  standalone = false;
  engine = Engine.eventgen;
  rate_mode = eps;
  is_backfill = false;
  sweeping = false;
  shape = none;
  bytes_per_event = 0;
  zero_output = 10 * one_second;
  max_restarts = 1;
  interval = 5 * one_second;
  deadline = none;
}

-- 2 events a one_second, paused before T0.
abbrev held_bucket : Bucket
held_bucket = record {
  rate = 2000000;
  catchup = 5 * one_second;
  start = pos 0;
  released = 0;
  paused = true;
  closed = false;
  discarded = [];
}

abbrev waiting : Agent
waiting = record {
  bucket = held_bucket;
  state = AgentState.ready;
  fencing_paused = false;
  operator_paused = false;
  paused_s = 0;
  exit_code = ExitCode.exit_ok;
  drain_reason = none;
  engine_started = true;
  rate_value = 2000000;
  shape_share = none;
}

abbrev loop : Agent → Loop
loop a = record {
  agent = a;
  client = new_client 1 (600 * one_second) 0;
  last_received = 7;
  last_progress = 0;
  engine_restarts = 0;
  next_hb = 5 * one_second;
}

-- A round at one instant, whose heartbeat gets an answer.
abbrev reading : ℕ → Outcome Reply → Readings
reading now answer = record {
  wall = now;
  received = 7;
  alive = true;
  watch_at = now;
  restarts = true;
  restarted_at = now;
  received_after = 7;
  auth_failed = false;
  deadman_at = now;
  fence_at = now;
  shape_at = now;
  beat_at = now;
  first = answer;
  second = failed;
  ack_at = now;
  fence_after = now;
  apply_at = now;
  metrics_restarts = true;
  rewrites = true;
}

abbrev paused_then_lost : List Readings
paused_then_lost =
    reading (6 * one_second) (returned (reply pause))
    ∷ reading (20 * one_second) failed
    ∷ reading (40 * one_second) failed
    ∷ []

run_loop-IsHeld_example :
    IsHeld (run_loop plan paused_then_lost (loop (start_generating one_second true waiting))).agent
run_loop-IsHeld_example =
    run_loop-IsHeld plan one_second true paused_then_lost (loop waiting) refl refl

-- Rounds of four seconds: the watchdog restarts the engine in the third and gives up in the sixth.
abbrev silence : List Readings
silence =
    reading (4 * one_second) failed
    ∷ reading (8 * one_second) (returned (reply continue))
    ∷ reading (12 * one_second) failed
    ∷ reading (16 * one_second) (returned (reply continue))
    ∷ reading (20 * one_second) failed
    ∷ reading (24 * one_second) failed
    ∷ reading (28 * one_second) failed
    ∷ []

abbrev stopped : Agent
stopped = record waiting { operator_paused = true; state = AgentState.paused }

resume-no_burst_example :
    ReleasesAfresh
      (90 * one_second)
      (apply_command plan (90 * one_second) true true (reply continue) stopped).bucket
resume-no_burst_example =
    resume-no_burst plan (90 * one_second) true true (reply continue) stopped refl refl refl
