-- ===== src/Store.antt =====
-- internal/store/store.go: the encrypted, append-only Merkle log.
pub mod Types
pub mod Frames
pub mod Head
pub mod Opening
pub mod Appending
pub mod Rows
pub mod Reading
pub mod HeadLaws
pub mod Offsets
pub mod Recovery
pub mod Written
pub mod Committing
pub mod Persistence
pub mod Reopening
pub mod Failures
pub mod Committed
pub mod Export
pub mod AppendOnly
pub mod Exporting
pub mod Queries
pub mod SampleHost
mod Samples
mod ExportSamples
