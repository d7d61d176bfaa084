-- ===== src/Curation/Custody.antt =====
-- src/ods_ingest/curation/custody_positions.py: a raw custody record becomes an upsert of `positions`,
-- or is skipped. The clock is the argument `now`; a decimal is as it was decoded.
pub mod Accounts
mod Tests
use bank_ods_unified_api.Prelude.{
  ℕ, ◌-◌, String, Bool, Option, none, some, List, [], ◌∷◌, ◌++◌, if◌then◌else◌, ◌==◌, true, false,
}
use bank_ods_unified_api.Prelude.Text.{Text, codes}
use bank_ods_unified_api.Prelude.Dict.{Dict, lookup}
use bank_ods_unified_api.Prelude.Index.{or_blank, or_text}
use bank_ods_unified_api.Prelude.Int.{pos, ltb_ℤ}
use bank_ods_unified_api.Curation.Decode.{Decoded, ok, fails, Decimal, zoned_to_decimal}
use bank_ods_unified_api.Curation.Decode.Dates.{Date, ccyymmdd_to_datetime}
use bank_ods_unified_api.Curation.Reference.{ReferenceIndex, account, security}
use bank_ods_unified_api.Curation.Stats.{
  CurationStats, skip, see, curate, unknown_account, unknown_security, malformed_value, Stamped,
  set_on_insert_timestamps, Semantic, bulk_upsert,
}

-- `s.replace("-", "")`
unfoldable pub without_dashes : Text → Text
without_dashes [] = []
without_dashes (c ∷ s) = let rest = without_dashes s in if c == b'-' then rest else c ∷ rest

unfoldable pub position_id : Text → Text → Text → Text
position_id account_id security_id cycle_date =
    codes "POS-"
    ++ without_dashes account_id
    ++ codes "-"
    ++ without_dashes security_id
    ++ codes "-"
    ++ cycle_date

pub record Position : Type 0 where
  pub position_id : Text
  pub account_id : Text
  pub security_id : Text
  pub as_of_date : Date
  pub quantity : Decimal
  pub currency : Text
  pub cost_basis : Decimal
  pub market_price : Decimal
  pub market_value : Decimal
  pub unrealized_pnl : Decimal
  pub position_type : String
  pub snapshot_type : String

-- The update of the position with this account, security and date, as an upsert.
pub record PositionUpsert : Type 0 where
  pub key : Text × Text × Date
  pub update : Stamped Position

abbrev pub zero_decimal : Decimal
zero_decimal = record { mantissa = pos 0; scale = 2 }

abbrev pub is_negative : Decimal → Bool
is_negative d = ltb_ℤ d.mantissa (pos 0)

-- The values of a record, where the first that fails ends it.
pub record Values : Type 0 where
  pub as_of : Date
  pub quantity : Decimal
  pub price : Decimal
  pub market_value : Decimal

abbrev pub values_of :
    Decoded Date → Decoded Decimal → Decoded Decimal → Decoded Decimal → Option Values
values_of (ok d) (ok q) (ok p) (ok v) =
    some record { as_of = d; quantity = q; price = p; market_value = v }
values_of (ok d) (ok q) (ok p) (fails e) = none
values_of (ok d) (ok q) (fails e) value = none
values_of (ok d) (fails e) price value = none
values_of (fails e) quantity price value = none

abbrev pub zoned_field : String → ℕ → Dict Text → Decoded Decimal
zoned_field name scale rec = zoned_to_decimal (or_blank (lookup name rec)) scale false

-- The `try` block; a missing field fails as an empty one does.
unfoldable pub decode_values : Dict Text → Option Values
decode_values rec =
    values_of (ccyymmdd_to_datetime (lookup "POS_BUS_DATE" rec)) (zoned_field "POS_SHR_QTY" 4 rec)
      (zoned_field "POS_MKT_PRICE" 12 rec) (zoned_field "POS_MKT_VALUE" 2 rec)

unfoldable pub position_of : Dict Text → Text → Text → Values → Position
position_of rec account_id security_id v = record {
  position_id = position_id account_id security_id (or_blank (lookup "POS_BUS_DATE" rec));
  account_id = account_id;
  security_id = security_id;
  as_of_date = v.as_of;
  quantity = v.quantity;
  currency = or_text (lookup "POS_CCY_CD" rec) (codes "USD");
  cost_basis = v.market_value;
  market_price = v.price;
  market_value = v.market_value;
  unrealized_pnl = zero_decimal;
  position_type = if is_negative v.quantity then "SHORT" else "LONG";
  snapshot_type = "EOD";
}

abbrev pub Curated : Type 0
Curated = Option PositionUpsert × CurationStats

-- From the decoded values on.
abbrev pub with_values : Dict Text → Text → Text → Option Values → CurationStats → Text → Curated
with_values rec account_id security_id none stats now = (none, skip malformed_value stats)
with_values rec account_id security_id (some v) stats now = (
  some record {
    key = (account_id, security_id, v.as_of);
    update = set_on_insert_timestamps (position_of rec account_id security_id v) now;
  },
  curate stats,
)

-- From the resolved security on.
abbrev pub with_security : Dict Text → Text → Option Text → CurationStats → Text → Curated
with_security rec account_id none stats now = (none, skip unknown_security stats)
with_security rec account_id (some security_id) stats now =
    with_values rec account_id security_id (decode_values rec) stats now

abbrev pub with_account : Dict Text → Option Text → Option Text → CurationStats → Text → Curated
with_account rec none security_id stats now = (none, skip unknown_account stats)
with_account rec (some account_id) security_id stats now =
    with_security rec account_id security_id stats now

unfoldable pub curate_record : Dict Text → ReferenceIndex → CurationStats → Text → Curated
curate_record rec index stats now =
    with_account rec (account index (lookup "POS_ACCT_NBR" rec))
      (security index (lookup "POS_CUSIP_NBR" rec) (lookup "POS_ISIN_NBR" rec)) stats now

abbrev pub onto_operations :
    Option PositionUpsert
    → List PositionUpsert × CurationStats
    → List PositionUpsert × CurationStats
onto_operations none rest = rest
onto_operations (some op) (ops, stats) = (op ∷ ops, stats)

-- The loop over the records of a batch: the operations, and the counts.
unfoldable pub curate_records :
    List (Dict Text × Text) → ReferenceIndex → CurationStats → List PositionUpsert × CurationStats
curate_records [] index stats = ([], stats)
curate_records ((rec, now) ∷ recs) index stats =
    let (op, after) = curate_record rec index (see stats) now in
    onto_operations op (curate_records recs index after)

-- The count of the documents written, and the collection and the counts afterwards. Each record
-- comes with the reading of the clock for it.
unfoldable pub curate_batch :
    (sem : Semantic PositionUpsert)
    → List (Dict Text × Text)
    → ReferenceIndex
    → CurationStats
    → sem.Db
    → (ℕ × sem.Db) × CurationStats
curate_batch sem records index stats db =
    let (operations, after) = curate_records records index stats in
    (bulk_upsert sem operations db, after)
