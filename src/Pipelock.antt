-- ===== src/Pipelock.antt =====
-- The tailers of internal/pipelock.
pub mod Tailer
pub mod Lines
pub mod Spans
pub mod Tracking
pub mod Delivery
pub mod Positions
pub mod Stepping
pub mod Resuming
pub mod Opening
pub mod Evidence
mod Samples
