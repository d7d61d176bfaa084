-- ===== src/Services.antt =====
-- src/bank_ods/services: what the query interfaces share.
pub mod Identifiers
pub mod Cursor
pub mod Seek
pub mod Paginate
pub mod Dates
pub mod Generic
pub mod Queries
pub mod Ops
mod Tests
