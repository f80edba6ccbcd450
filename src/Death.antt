-- ===== src/Death.antt =====
-- The death records of internal/death.
pub mod Records
pub mod Checks
pub mod Verification
pub mod Coverage
pub mod Capture
pub mod Loading
pub mod Firing
mod Samples
