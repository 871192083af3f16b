-- ===== src/Engines.antt =====
-- server/engines: how a run's rate is divided over its worker slots.
pub mod Apportion
pub mod Ceilings
pub mod Sharding
mod Examples
