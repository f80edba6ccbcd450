-- ===== src/Soul.antt =====
-- The signed documents of internal/soul/verify.go and the list of trusted keys.
pub mod Allowlist
pub mod Signatures
mod Samples
