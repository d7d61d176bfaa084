-- ===== src/Curation/Custody/Accounts.antt =====
-- src/ods_ingest/curation/custody_positions.py: what a batch leaves in the counts, and the sign of the
-- positions.
use bank_ods_unified_api.Prelude.{
  ℕ, ◌+◌, ◌≡◌, refl, false, Option, none, some, List, [], ◌∷◌, length, arith, if-cases, String,
}
use bank_ods_unified_api.Prelude.Text.{Text}
use bank_ods_unified_api.Prelude.Dict.{Dict, lookup}
use bank_ods_unified_api.Prelude.Index.{or_blank}
use bank_ods_unified_api.Prelude.Strip.{strip, is_empty}
use bank_ods_unified_api.Prelude.Numeral.{all_digits, digits_from}
use bank_ods_unified_api.Curation.Decode.{Decoded, ok, fails, Decimal, zoned_to_decimal, number}
use bank_ods_unified_api.Curation.Decode.Dates.{Date, ccyymmdd_to_datetime}
use bank_ods_unified_api.Curation.Stats.{
  CurationStats, skip, see, skipped, skipped-skip, IsAccounted, unknown_account, unknown_security,
  malformed_value,
}
use bank_ods_unified_api.Curation.Reference.{ReferenceIndex}
use bank_ods_unified_api.Curation.Custody.{
  Curated, PositionUpsert, Values, curate_record, curate_records, onto_operations, with_account,
  with_values, decode_values, values_of, zoned_field, position_of, is_negative,
}

abbrev count : Option PositionUpsert → ℕ
count none = 0
count (some op) = 1

-- One record: it is curated and gives an upsert, or it is skipped.
abbrev Counts : CurationStats → Curated → Type 0
Counts stats (op, after) =
    (after.seen ≡ stats.seen)
    × (after.curated ≡ stats.curated + count op)
    × (after.curated + skipped after ≡ stats.curated + skipped stats + 1)

skip-Counts : (reason : String) (stats : CurationStats) → Counts stats (none, skip reason stats)
skip-Counts reason stats =
    let (a, b, c) = skipped-skip reason stats in (b, omega arith, omega arith)

with_values-Counts :
    (rec : Dict Text) (a s : Text) (v : Option Values) (stats : CurationStats) (now : Text)
    → Counts stats (with_values rec a s v stats now)
unfolding skipped
with_values-Counts rec a s none stats now = skip-Counts malformed_value stats
with_values-Counts rec a s (some v) stats now = (refl, refl, omega arith)

with_account-Counts :
    (rec : Dict Text) (a s : Option Text) (stats : CurationStats) (now : Text)
    → Counts stats (with_account rec a s stats now)
with_account-Counts rec none s stats now = skip-Counts unknown_account stats
with_account-Counts rec (some a) none stats now = skip-Counts unknown_security stats
with_account-Counts rec (some a) (some s) stats now =
    with_values-Counts rec a s (decode_values rec) stats now

curate_record-Counts :
    (rec : Dict Text) (index : ReferenceIndex) (stats : CurationStats) (now : Text)
    → Counts stats (curate_record rec index stats now)
unfolding curate_record
curate_record-Counts rec index stats now = with_account-Counts rec _ _ stats now

length-onto_operations :
    (op : Option PositionUpsert) (rest : List PositionUpsert × CurationStats)
    → (length (onto_operations op rest).0 ≡ count op + length rest.0)
      × ((onto_operations op rest).1 ≡ rest.1)
length-onto_operations none rest = (omega arith, refl)
length-onto_operations (some op) (ops, stats) = (omega arith, refl)

-- A batch of records keeps `curated + skipped == seen`; it sees each of its records, and gives one
-- upsert for each record that it curates.
pub curate_records-IsAccounted :
    (records : List (Dict Text × Text)) (index : ReferenceIndex) (stats : CurationStats)
    → IsAccounted stats
    → let (operations, after) = curate_records records index stats in
      IsAccounted after
      × (after.seen ≡ stats.seen + length records)
      × (after.curated ≡ stats.curated + length operations)
unfolding curate_records skipped
curate_records-IsAccounted [] index stats h = (h, omega arith, omega arith)
curate_records-IsAccounted ((rec, now) ∷ recs) index stats h =
    let (op, after) = curate_record rec index (see stats) now in
    let (s, c, k) = curate_record-Counts rec index (see stats) now in
    let (h', s', c') = curate_records-IsAccounted recs index after (omega arith) in
    let (l, e) = length-onto_operations op (curate_records recs index after) in
    (rw e h', rw e (omega arith), rw e (omega arith))

-- An unsigned zoned decimal that decodes is not negative.
abbrev NotNegative : Decoded Decimal → Type 0
NotNegative (fails e) = Unit
NotNegative (ok d) = is_negative d ≡ false

number-NotNegative :
    (raw : Text) (scale : ℕ) (n : Option ℕ) → NotNegative (number raw scale false n)
number-NotNegative raw scale none = tt
number-NotNegative raw scale (some n) = ground arith

zoned_to_decimal-NotNegative :
    (raw : Text) (scale : ℕ) → NotNegative (zoned_to_decimal raw scale false)
unfolding zoned_to_decimal
zoned_to_decimal-NotNegative raw scale =
    if-cases NotNegative (is_empty (strip raw)) _ _ (λ e. tt)
      λ e.
        if-cases NotNegative (all_digits (strip raw)) _ _
          (λ d. number-NotNegative raw scale (digits_from 0 false (strip raw))) (λ d. tt)

abbrev IsLong : Option PositionUpsert → Type 0
IsLong none = Unit
IsLong (some op) =
    (op.update.doc.position_type ≡ "LONG") × (is_negative op.update.doc.quantity ≡ false)

abbrev ValuesNotNegative : Option Values → Type 0
ValuesNotNegative none = Unit
ValuesNotNegative (some v) = is_negative v.quantity ≡ false

values_of-NotNegative :
    (d : Decoded Date) (q p v : Decoded Decimal)
    → NotNegative q
    → ValuesNotNegative (values_of d q p v)
values_of-NotNegative (fails e) q p v h = tt
values_of-NotNegative (ok d) (fails e) p v h = tt
values_of-NotNegative (ok d) (ok q) (fails e) v h = tt
values_of-NotNegative (ok d) (ok q) (ok p) (fails e) h = tt
values_of-NotNegative (ok d) (ok q) (ok p) (ok v) h = h

with_values-IsLong :
    (rec : Dict Text) (a s : Text) (v : Option Values) (stats : CurationStats) (now : Text)
    → ValuesNotNegative v
    → IsLong (with_values rec a s v stats now).0
unfolding position_of
with_values-IsLong rec a s none stats now h = tt
with_values-IsLong rec a s (some v) stats now h = (rw h refl, h)

with_account-IsLong :
    (rec : Dict Text) (a s : Option Text) (stats : CurationStats) (now : Text)
    → IsLong (with_account rec a s stats now).0
unfolding decode_values
with_account-IsLong rec none s stats now = tt
with_account-IsLong rec (some a) none stats now = tt
with_account-IsLong rec (some a) (some s) stats now =
    with_values-IsLong rec a s (decode_values rec) stats now (
      values_of-NotNegative (ccyymmdd_to_datetime (lookup "POS_BUS_DATE" rec))
        (zoned_field "POS_SHR_QTY" 4 rec) (zoned_field "POS_MKT_PRICE" 12 rec)
        (zoned_field "POS_MKT_VALUE" 2 rec)
        (zoned_to_decimal-NotNegative (or_blank (lookup "POS_SHR_QTY" rec)) 4))

-- Every position that is curated has the type LONG, and a quantity of zero or more: the quantity is
-- decoded without a sign.
pub curate_record-IsLong :
    (rec : Dict Text) (index : ReferenceIndex) (stats : CurationStats) (now : Text)
    → IsLong (curate_record rec index stats now).0
unfolding curate_record
curate_record-IsLong rec index stats now = with_account-IsLong rec _ _ stats now
