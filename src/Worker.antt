-- ===== src/Worker.antt =====
-- worker/stoker_agent: the agent of one worker, between its engine and Splunk.
pub mod Hec
pub mod Pacing
pub mod Sock
pub mod Control
pub mod Agent
mod Examples
