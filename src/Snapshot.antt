-- ===== src/Snapshot.antt =====
-- src/ods_ingest/adapters/snapshot: the start-of-day snapshot adapter.
pub mod Diff
pub mod Merge
pub mod Index
pub mod Securities
mod Tests
