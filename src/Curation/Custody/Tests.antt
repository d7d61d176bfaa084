-- ===== src/Curation/Custody/Tests.antt =====
-- A custody record through the curator, and instances of the theorems on it.
use bank_ods_unified_api.Prelude.{◌+◌, ◌≡◌, refl, none, some, List, [], ◌∷◌, length}
use bank_ods_unified_api.Prelude.Text.{Text, codes, compare_text}
use bank_ods_unified_api.Prelude.Dict.{Dict, lookup}
use bank_ods_unified_api.Prelude.Strip.{strip}
use bank_ods_unified_api.Prelude.Index.{elem, get}
use bank_ods_unified_api.Prelude.Numeral.{all_digits, digits_from, parse_int, show_padded}
use bank_ods_unified_api.Services.Identifiers.{account_id_from_custody}
use bank_ods_unified_api.Curation.Decode.{zoned_to_decimal}
use bank_ods_unified_api.Curation.Decode.Dates.{
  ccyymmdd_to_datetime, datetime, days_in_month, is_leap,
}
use bank_ods_unified_api.Curation.Reference.{SecurityDoc, ReferenceIndex, account, security}
use bank_ods_unified_api.Curation.Stats.{new_stats, skip, skipped, sum_values, IsAccounted}
use bank_ods_unified_api.Curation.Custody.{curate_record, curate_records, decode_values}
use bank_ods_unified_api.Curation.Custody.Accounts.{curate_records-IsAccounted}

abbrev rec : Dict Text
rec =
    ("POS_ACCT_NBR", codes "000000000007")
    ∷ ("POS_CUSIP_NBR", codes "037833100")
    ∷ ("POS_BUS_DATE", codes "20240229")
    ∷ ("POS_SHR_QTY", codes "0000000008505000")
    ∷ ("POS_MKT_PRICE", codes "001")
    ∷ ("POS_MKT_VALUE", codes "12345")
    ∷ []

abbrev apple : SecurityDoc
apple = record {
  security_id = codes "SEC-1";
  cusip = some (codes "037833100");
  isin = none;
  sedols = [];
}

abbrev index : ReferenceIndex
index = record {
  account_ids = codes "ACC-000007" ∷ [];
  sec_by_cusip = (codes "037833100", codes "SEC-1") ∷ [];
  sec_by_isin = [];
}

abbrev batch : List (Dict Text × Text)
batch = (rec, codes "now") ∷ ([], codes "now") ∷ []

-- The leap day is a date; of a record and an empty one, the first is curated.
one_of_two : (curate_records batch index new_stats).1.curated ≡ 1
unfolding curate_records curate_record account security account_id_from_custody parse_int
    show_padded elem get compare_text lookup decode_values ccyymmdd_to_datetime datetime
    days_in_month is_leap strip all_digits digits_from zoned_to_decimal skip
one_of_two = refl

curate_records-IsAccounted_example :
    let (operations, after) = curate_records batch index new_stats in
    IsAccounted after
    × (after.seen ≡ new_stats.seen + length batch)
    × (after.curated ≡ new_stats.curated + length operations)
unfolding skipped sum_values
curate_records-IsAccounted_example = curate_records-IsAccounted batch index new_stats refl
