-- ===== src/Watchdog.antt =====
-- The witness's record of its own interruptions: internal/lifecycle, internal/anomaly and the HTTP
-- backend of internal/mirror; the drift of internal/drift and the comparison of cmd/witness/audit.go.
pub mod Lifecycle
pub mod Anomaly
pub mod Mirror
mod Samples
pub mod Drift
pub mod Audit
