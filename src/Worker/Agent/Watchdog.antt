-- ===== src/Worker/Agent/Watchdog.antt =====
-- The zero-output watchdog, on an engine that stays silent.
pub mod Calm
pub mod Clock
mod Silence
use stoker.Prelude.{
  zero, ◌-◌, Bool, not, ◌&&◌, ◌||◌, ◌∙◌, ◌⊎◌, Option, none, some, if◌then◌else◌, leb, length,
}
use stoker.Worker.Agent.{Agent, request_drain, no_engine_output, exit_no_output}
use stoker.Worker.Agent.Loop.{
  Loop, parts, run_parts, check_deadline, quiet_watchdog, check_engine, fail_output, stalled,
  watchdog, check_auth, check_dead_man, fence, shape, beat,
}
use stoker.Worker.Agent.Watchdog.Calm.{
  IsCalm, IsPlain, request_drain-drains, proceed-Goes, check_deadline-Goes, quiet_watchdog-Goes,
  check_engine-Goes, check_auth-Goes, check_dead_man-Goes, fence-IsCalm, shape-Goes, beat-Goes,
}
