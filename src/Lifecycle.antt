-- ===== src/Lifecycle.antt =====
-- server/lifecycle.py and the tables of server/models.py that it keeps.
pub mod Model
pub mod Rows
pub mod Apportionment
pub mod Release
pub mod Complete
pub mod Claim
pub mod Heartbeat
pub mod Operator
pub mod Backpressure
pub mod Supervisor
pub mod Boot
pub mod Sweep
pub mod Step
pub mod Later
pub mod Ending
pub mod Draining
pub mod Gate
pub mod Fencing
pub mod Takeover
pub mod Pauses
pub mod Shares
pub mod Scaling
pub mod StepDown
pub mod Reaping
mod Examples
