-- ===== src/Rest.antt =====
-- src/bank_ods/rest: how service results become responses (errors.py), and the routes of the raw tier
-- (routers/raw.py).
use bank_ods_unified_api.Prelude.{ℕ, List, [], ◌∷◌, ◌++◌}
use bank_ods_unified_api.Prelude.Text.{Text, codes}
use bank_ods_unified_api.Models.Base.{Entity}
use bank_ods_unified_api.Services.Generic.{
  Code, not_found, mongo_error, invalid_cursor, invalid_date, Envelope, answer, error,
}
use bank_ods_unified_api.Services.Queries.{Request, Paging, get_raw_record, list_raw_records}
use bank_ods_unified_api.Topics.{Model}

-- `_STATUS_BY_CODE.get(code, 500)`
unfoldable pub status_by_code : Code → ℕ
status_by_code not_found = 404
status_by_code invalid_date = 400
status_by_code invalid_cursor = 400
status_by_code mongo_error = 500

-- The result, or an HTTPException with its status.
pub data Response (A : Type 0) : Type 0 where
  body : A → Response A
  http_exception : ℕ → Response A

unfoldable pub check : {A : Type 0} → Envelope A → Response A
check (answer result) = body result
check (error code) = http_exception (status_by_code code)

-- A call of one of the two routes of a model.
pub data RawCall : Type 0 where
  list_records : Paging → RawCall
  get_record : Text → RawCall

abbrev pub sink_model : Entity → Model
sink_model e = record {
  collection = e.collection;
  id_field = e.id_field;
  ordering_field = e.ordering_field;
}

unfoldable pub raw_route : Entity → RawCall → Request
raw_route e (list_records page) = list_raw_records (sink_model e) e.default_sort page
raw_route e (get_record record_id) = get_raw_record (sink_model e) record_id

unfoldable pub build_raw_routers : List Entity → List Text
build_raw_routers [] = []
build_raw_routers (e ∷ es) = (codes "/" ++ codes e.collection) ∷ build_raw_routers es
