-- ===== src/Services/Generic.antt =====
-- src/bank_ods/services/generic.py: the error envelope of the entity services. The errors of the
-- database are the exceptions of `Found`; a document is as it is before `serialize_doc`.
use bank_ods_unified_api.Prelude.{Option, none, some}

pub data Code : Type 0 where
  not_found mongo_error invalid_cursor invalid_date : Code

-- A document or page, or an error with its code.
pub data Envelope (A : Type 0) : Type 0 where
  answer : A → Envelope A
  error : Code → Envelope A

-- What the driver, or `paginate`, comes to.
pub data Found (A : Type 0) : Type 0 where
  found : A → Found A
  database_error bad_cursor : Found A

abbrev pub not_none : {A : Type 0} → Option A → Envelope A
not_none none = error not_found
not_none (some doc) = answer doc

unfoldable pub get_one : {A : Type 0} → Found (Option A) → Envelope A
get_one (found doc) = not_none doc
get_one database_error = error mongo_error
get_one bad_cursor = error mongo_error

unfoldable pub get_many : {A : Type 0} → Found A → Envelope A
get_many (found page) = answer page
get_many database_error = error mongo_error
get_many bad_cursor = error invalid_cursor
