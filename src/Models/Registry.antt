-- ===== src/Models/Registry.antt =====
-- src/bank_ods/models/registry.py: the entities of the two tiers, the names of their operations, and
-- the indexes that src/bank_ods/db/indexes.py asks for.
use bank_ods_unified_api.Prelude.{
  String, Bool, true, ◌&&◌, List, [], ◌∷◌, ◌++◌, map, leb, if◌then◌else◌,
}
use bank_ods_unified_api.Prelude.Text.{Text, codes}
use bank_ods_unified_api.Curation.Crm.Master.{lower}
use bank_ods_unified_api.Models.Base.{Entity, IndexSpec}
use bank_ods_unified_api.Models.Master.{account_model, security_model}
use bank_ods_unified_api.Models.Activity.{
  transaction_model, position_model, settlement_model, cash_balance_model,
}
use bank_ods_unified_api.Models.Raw.{
  raw_custody_position_model, raw_vendor_security_model, raw_cash_movement_model,
  raw_crm_client_event_model, raw_crm_account_event_model,
}

abbrev pub entities_semantic : List Entity
entities_semantic =
    account_model ∷ security_model ∷ transaction_model ∷ position_model ∷ settlement_model
    ∷ cash_balance_model ∷ []

abbrev pub entities_raw : List Entity
entities_raw =
    raw_custody_position_model ∷ raw_vendor_security_model ∷ raw_cash_movement_model
    ∷ raw_crm_client_event_model ∷ raw_crm_account_event_model ∷ []

abbrev pub entities : List Entity
entities = entities_semantic ++ entities_raw

-- `if flag: result.extend(tier)`
abbrev pub if_exposed : Bool → List Entity → List Entity
if_exposed flag tier = if flag then tier else []

unfoldable pub active_entities : Bool → Bool → List Entity
active_entities semantic_tier raw_tier =
    if_exposed semantic_tier entities_semantic ++ if_exposed raw_tier entities_raw

-- `re.sub(r"(?=[A-Z])", "_", name)`, at every place of the text.
unfoldable pub underscored : Text → Text
underscored [] = []
underscored (c ∷ s) =
    let rest = underscored s in if leb b'A' c && leb c b'Z' then b'_' ∷ c ∷ rest else c ∷ rest

-- `(?<!^)` leaves the start out.
unfoldable pub snake : Text → Text
snake [] = []
snake (c ∷ s) = lower (c ∷ underscored s)

unfoldable pub get_field_name : Entity → Text
get_field_name model = codes "get_" ++ snake (codes model.class_name)

unfoldable pub list_field_name : Entity → Text
list_field_name model = codes "list_" ++ codes model.collection

abbrev pub with_collection : String → List IndexSpec → List (String × IndexSpec)
with_collection collection indexes = map (λ i. (collection, i)) indexes

-- The calls of `create_index`.
unfoldable pub index_calls : List Entity → List (String × IndexSpec)
index_calls [] = []
index_calls (e ∷ es) = with_collection e.collection e.indexes ++ index_calls es

-- `ensure_indexes`, with `_indexes_created` before and after.
unfoldable pub ensure_indexes : Bool → List (String × IndexSpec) × Bool
ensure_indexes created = if created then ([], created) else (index_calls entities, true)
