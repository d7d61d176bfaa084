-- ===== src/Files.antt =====
-- src/ods_ingest/adapters/file: the batch files.
pub mod Batches
pub mod FixedWidth
pub mod Watcher
mod Tests
