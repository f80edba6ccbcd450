-- ===== src/Pd.antt =====
-- The evidence catalog of the PD edition, its roles and its court exports: internal/pd.
pub mod Custody
pub mod Operations
pub mod Plans
pub mod Holds
pub mod Runs
pub mod Records
pub mod Logged
pub mod Roles
pub mod Bundles
pub mod Exports
pub mod Signing
mod SampleHost
mod Samples
