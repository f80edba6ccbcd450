-- ===== src/Bridges.antt =====
-- The bridges from the logs of other programs: internal/pipelock_bridge and internal/sbh.
pub mod Events
pub mod Levels
mod Samples
