-- ===== src/Enforcer.antt =====
-- The reader of internal/enforcer.
pub mod Reader
mod Samples
