-- ===== src/Accept.antt =====
-- internal/accept: operators' approvals of known drift.
pub mod Requests
pub mod Approvals
pub mod Trust
pub mod Coverage
pub mod Effects
mod Samples
