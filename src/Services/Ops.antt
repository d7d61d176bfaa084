-- ===== src/Services/Ops.antt =====
-- src/bank_ods/services/ops.py: the queries of the ops server, on what the collections hold. The errors
-- of the database stand in Release only, whose checks catch them.
pub mod Custody
pub mod Vendor
pub mod Crm
pub mod Collections
pub mod Status
pub mod Release
mod Tests
mod CollectionTests
