-- ===== src/Sink.antt =====
-- src/ods_ingest/sink: landing consumed records in the raw tier.
pub mod Writer
pub mod Batch
pub mod Extractors
mod Tests
