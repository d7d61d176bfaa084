-- ===== src/Curation/Crm.antt =====
-- src/ods_ingest/curation/crm_accounts.py, by child module.
pub mod Master
pub mod Events
pub mod Accounts
mod Tests
pub mod Commute
pub mod Convergence
pub mod Typed
pub mod TypedBatch
