-- ===== src/Services/Ops/CollectionTests.antt =====
-- src/bank_ods/services/ops.py: searches of the raw tier.
use bank_ods_unified_api.Prelude.{◌≡◌, refl, none, [], ◌∷◌}
use bank_ods_unified_api.Prelude.Text.{codes}
use bank_ods_unified_api.Prelude.Dict.{contains}
use bank_ods_unified_api.Models.Base.{fields_of}
use bank_ods_unified_api.Services.Cursor.{ascending}
use bank_ods_unified_api.Services.Queries.{many, equal_to}
use bank_ods_unified_api.Services.Ops.Collections.{
  reported, not_raw_collection, unknown_field, find_raw_records, known_in, field_names,
}

first_page_test :
    find_raw_records "raw_custody_positions" "POS_ACCT_NBR" (codes "000000000001") 80
    ≡ reported (
        many "raw_custody_positions"
          (("POS_ACCT_NBR", equal_to (codes "000000000001")) ∷ [])
          (("REC_ID", ascending) ∷ [])
          record { limit = 50; cursor = none })
unfolding find_raw_records known_in field_names contains fields_of
first_page_test = refl

semantic_tier_test : find_raw_records "accounts" "accountId" [] 1 ≡ not_raw_collection "accounts"
unfolding find_raw_records known_in contains
semantic_tier_test = refl

field_test :
    find_raw_records "raw_cash_movements" "_id" [] 1 ≡ unknown_field "_id" "raw_cash_movements"
unfolding find_raw_records known_in field_names contains fields_of
field_test = refl
