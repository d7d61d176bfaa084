-- ===== src/Models.antt =====
-- src/bank_ods/models: the entities of the ODS.
pub mod Base
pub mod Master
pub mod Activity
pub mod Raw
pub mod Registry
mod Tests
