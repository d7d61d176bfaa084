-- ===== src/Services/Ops/Collections.antt =====
-- src/bank_ods/services/ops.py: the reports on single collections. `newest` has the documents of a
-- collection from the one inserted last, each with the time in its ObjectId; what the server says of
-- sizes is `sizes`, and of indexes `indexes`, with their names in order.
use bank_ods_unified_api.Prelude.{
  ℕ, min, max, String, Bool, not, Option, none, some, List, [], ◌∷◌, map, length, take,
  if◌then◌else◌, str_eq,
}
use bank_ods_unified_api.Prelude.Text.{Text}
use bank_ods_unified_api.Prelude.Dict.{contains}
use bank_ods_unified_api.Models.Base.{Entity, Fields, no_more, one_field}
use bank_ods_unified_api.Models.Registry.{entities, entities_raw}
use bank_ods_unified_api.Services.Queries.{Request, many, equal_to}

abbrev pub ops_max_limit : ℕ
ops_max_limit = 50

-- `clamp_limit(limit, _OPS_MAX_LIMIT)`
abbrev pub clamp_ops_limit : ℕ → ℕ
clamp_ops_limit limit = min (max 1 limit) ops_max_limit

-- The lookup in `_KNOWN_COLLECTIONS`.
unfoldable pub known_in : String → List Entity → Option Entity
known_in collection [] = none
known_in collection (e ∷ es) =
    let rest = known_in collection es in if str_eq e.collection collection then some e else rest

abbrev pub known : String → Option Entity
known collection = known_in collection entities

abbrev pub collection_name : Entity → String
collection_name e = e.collection

-- `model in ENTITIES_RAW`
abbrev pub is_raw : String → Bool
is_raw collection = contains (map collection_name entities_raw) collection

abbrev pub tier : String → String
tier collection = if is_raw collection then "raw" else "semantic"

pub record CollectionRow : Type 0 where
  pub collection : String
  pub tier_name : String
  pub count : ℕ
  pub last_insert_at : Option Text

pub record CollectionStats : Type 0 where
  pub row : CollectionRow
  pub size_bytes : ℕ
  pub storage_size_bytes : ℕ
  pub index_names : List String

-- What a report on a named collection comes to.
pub data Reported (A : Type 0) : Type 0 where
  reported : A → Reported A
  unknown_collection : String → Reported A
  not_raw_collection : String → Reported A
  unknown_field : String → String → Reported A

unfoldable pub field_names : Fields → List String
field_names no_more = []
field_names (one_field name annotation fields) = name ∷ field_names fields

module _ {D : Type 0} (newest : String → List (Text × D)) (sizes : String → ℕ × ℕ)
    (indexes : String → List String) where
  abbrev pub time_of_first : List (Text × D) → Option Text
  time_of_first [] = none
  time_of_first ((inserted, doc) ∷ docs) = some inserted

  abbrev pub last_insert_at : String → Option Text
  last_insert_at collection = time_of_first (newest collection)

  abbrev pub row_of : String → CollectionRow
  row_of collection = record {
    collection = collection;
    tier_name = tier collection;
    count = length (newest collection);
    last_insert_at = last_insert_at collection;
  }

  unfoldable pub list_collections : List CollectionRow
  list_collections = map (λ (e : Entity). row_of e.collection) entities

  abbrev pub stats_of : String → Option Entity → Reported CollectionStats
  stats_of collection none = unknown_collection collection
  stats_of collection (some e) = reported record {
    row = row_of collection;
    size_bytes = (sizes collection).0;
    storage_size_bytes = (sizes collection).1;
    index_names = indexes collection;
  }

  unfoldable pub get_collection_stats : String → Reported CollectionStats
  get_collection_stats collection = stats_of collection (known collection)

  abbrev pub recent_of : String → ℕ → Option Entity → Reported (List (Text × D))
  recent_of collection limit none = unknown_collection collection
  recent_of collection limit (some e) = reported (take (clamp_ops_limit limit) (newest collection))

  -- Each document with `_insertedAt`.
  unfoldable pub query_recent : String → ℕ → Reported (List (Text × D))
  query_recent collection limit = recent_of collection limit (known collection)

abbrev pub raw_records_of : String → String → Text → ℕ → Option Entity → Reported Request
raw_records_of collection name value limit none = unknown_collection collection
raw_records_of collection name value limit (some model) =
    if not (is_raw collection)
    then not_raw_collection collection
    else if not (contains (field_names model.fields) name)
    then unknown_field name collection
    else reported (
        many collection ((name, equal_to value) ∷ []) model.default_sort
          record { limit = clamp_ops_limit limit; cursor = none })

-- The call of `get_many`, always for the first page.
unfoldable pub find_raw_records : String → String → Text → ℕ → Reported Request
find_raw_records collection name value limit =
    raw_records_of collection name value limit (known collection)
