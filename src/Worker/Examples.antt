-- ===== src/Worker/Examples.antt =====
-- The parts of a worker at concrete inputs.
mod Buckets
mod Sending
mod Connections
mod Agents
