-- ===== src/Merkle.antt =====
-- internal/merkle: the RFC 6962-style tree, its inclusion proofs, and what they prove.
pub mod Split
pub mod Tree
pub mod Proof
pub mod Root
pub mod Completeness
pub mod NodeHash
pub mod Recompute
pub mod Binding
pub mod Logs
pub mod Malformed
mod Samples
