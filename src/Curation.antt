-- ===== src/Curation.antt =====
-- src/ods_ingest/curation: from raw to semantic documents.
pub mod Decode
pub mod Stats
pub mod Reference
pub mod Custody
pub mod Cash
pub mod Vendor
pub mod Crm
mod Tests
