-- ===== src/Files/Batches.antt =====
-- src/ods_ingest/adapters/file/batches.py: batch identity, reading a custody file, and its control
-- totals. Python sums the totals as decimals of 28 digits, which is exact for up to 10 ^ 12 records.
pub mod Reconciled
use bank_ods_unified_api.Prelude.{
  ℕ, ◌+◌, String, Bool, true, false, Option, none, some, List, [], ◌∷◌, ◌++◌, length, take, ◌==◌,
  not, if◌then◌else◌,
}
use bank_ods_unified_api.Prelude.Text.{Text, eq_text}
use bank_ods_unified_api.Prelude.Dict.{Dict, lookup}
use bank_ods_unified_api.Prelude.Strip.{is_empty}
use bank_ods_unified_api.Prelude.Int.{ℤ, pos, negsuc, ◌+ℤ◌}
use bank_ods_unified_api.Prelude.Numeral.{parse_int, show_padded}
use bank_ods_unified_api.Curation.Decode.{
  Decoded, ok, fails, Decimal, DecodeError, zoned_to_decimal,
}
use bank_ods_unified_api.Files.FixedWidth.{
  ParseError, Parsed, parsed, parse_error, unknown_type, rec_type_header, rec_type_detail,
  rec_type_trailer, parse_header, parse_detail, parse_trailer, iter_records, or_empty,
}

abbrev pub status_complete : String
status_complete = "COMPLETE"

abbrev pub status_failed : String
status_failed = "FAILED"

-- `<fileName>:<sha256[:12]>`; the hexadecimal SHA-256 of a file's content is the parameter.
unfoldable pub batch_id_for : (Text → Text) → Text → Text → Text
batch_id_for sha256_hex name content = name ++ b':' ∷ take 12 (sha256_hex content)

unfoldable pub rec_id_for : Text → ℕ → Text
rec_id_for cycle_date seq = cycle_date ++ b'-' ∷ show_padded 6 seq

pub record Reject : Type 0 where
  pub line_no : ℕ
  pub error : ParseError
  pub raw : Text

-- The messages of `_control_error`.
pub data ControlError : Type 0 where
  missing_header missing_trailer : ControlError
  cycle_mismatch : Text → Text → ControlError
  non_numeric_count : Text → ControlError
  count_mismatch : ℤ → ℕ → ControlError
  unparseable : ℕ → ControlError
  undecodable : DecodeError → ControlError
  quantity_mismatch value_mismatch : ℤ → ℤ → ControlError

-- What the loop of `parse_custody_file` has read.
pub record Contents : Type 0 where
  pub header : Option (Dict Text)
  pub details : List (Dict Text)
  pub trailer : Option (Dict Text)
  pub rejects : List Reject

pub record ParsedBatch : Type 0 where
  pub batch_id : Text
  pub file_name : Text
  pub cycle_date : Text
  pub contents : Contents
  pub control_error : Option ControlError

abbrev pub rejected : ℕ → Text → ParseError → Contents → Contents
rejected line_no line e c = record c {
  rejects = c.rejects ++ record { line_no = line_no; error = e; raw = take 120 line } ∷ [];
}

abbrev pub take_header : ℕ → Text → Parsed (Dict Text) → Contents → Contents
take_header line_no line (parsed rec) c = record c { header = some rec }
take_header line_no line (parse_error e) c = rejected line_no line e c

abbrev pub take_detail : ℕ → Text → Parsed (Dict Text) → Contents → Contents
take_detail line_no line (parsed rec) c = record c { details = c.details ++ rec ∷ [] }
take_detail line_no line (parse_error e) c = rejected line_no line e c

abbrev pub take_trailer : ℕ → Text → Parsed (Dict Text) → Contents → Contents
take_trailer line_no line (parsed rec) c = record c { trailer = some rec }
take_trailer line_no line (parse_error e) c = rejected line_no line e c

unfoldable pub take_record : Text × ℕ × Text → Contents → Contents
take_record (rec_type, line_no, line) c =
    if eq_text rec_type rec_type_header
    then take_header line_no line (parse_header line) c
    else if eq_text rec_type rec_type_detail
    then take_detail line_no line (parse_detail line) c
    else if eq_text rec_type rec_type_trailer
    then take_trailer line_no line (parse_trailer line) c
    else rejected line_no line (unknown_type rec_type) c

unfoldable pub take_records : List (Text × ℕ × Text) → Contents → Contents
take_records [] c = c
take_records (r ∷ rs) c = take_records rs (take_record r c)

abbrev pub nothing_read : Contents
nothing_read = record { header = none; details = []; trailer = none; rejects = [] }

-- `rec[name]`; the parsers give every field of the layout.
abbrev pub at_field : String → Dict Text → Text
at_field name rec = or_empty (lookup name rec)

abbrev pub add_totals : Decoded Decimal → Decoded Decimal → Decoded (ℤ × ℤ) → Decoded (ℤ × ℤ)
add_totals (fails e) value rest = fails e
add_totals (ok q) (fails e) rest = fails e
add_totals (ok q) (ok v) (fails e) = fails e
add_totals (ok q) (ok v) (ok (qty, value)) = ok (q.mantissa +ℤ qty, v.mantissa +ℤ value)

-- The two sums, as mantissas at the scales 4 and 2.
unfoldable pub sum_control_totals : List (Dict Text) → Decoded (ℤ × ℤ)
sum_control_totals [] = ok (pos 0, pos 0)
sum_control_totals (rec ∷ recs) =
    add_totals (zoned_to_decimal (at_field "POS_SHR_QTY" rec) 4 false)
      (zoned_to_decimal (at_field "POS_MKT_VALUE" rec) 2 false) (sum_control_totals recs)

abbrev pub eq_ℤ : ℤ → ℤ → Bool
eq_ℤ (pos m) (pos n) = m == n
eq_ℤ (negsuc m) (negsuc n) = m == n
eq_ℤ (pos m) (negsuc n) = false
eq_ℤ (negsuc m) (pos n) = false

-- The comparison of the totals with the declared ones.
unfoldable pub totals_error :
    Decoded (ℤ × ℤ) → Decoded Decimal → Decoded Decimal → Option ControlError
totals_error (fails e) declared_qty declared_value = some (undecodable e)
totals_error (ok totals) (fails e) declared_value = some (undecodable e)
totals_error (ok totals) (ok q) (fails e) = some (undecodable e)
totals_error (ok (qty, value)) (ok q) (ok v) =
    if not (eq_ℤ qty q.mantissa)
    then some (quantity_mismatch qty q.mantissa)
    else if not (eq_ℤ value v.mantissa)
    then some (value_mismatch value v.mantissa)
    else none

-- From the declared number of records on.
unfoldable pub count_error : Option ℤ → Dict Text → Contents → Option ControlError
count_error none trailer c = some (non_numeric_count (at_field "TRL_REC_COUNT" trailer))
count_error (some declared) trailer c =
    let read_count = length c.details + length c.rejects in
    if not (eq_ℤ declared (pos read_count))
    then some (count_mismatch declared read_count)
    else if not (is_empty c.rejects)
    then some (unparseable (length c.rejects))
    else totals_error (sum_control_totals c.details)
        (zoned_to_decimal (at_field "TRL_TOT_SHR_QTY" trailer) 4 false)
        (zoned_to_decimal (at_field "TRL_TOT_MKT_VALUE" trailer) 2 false)

unfoldable pub trailer_error : Text → Option (Dict Text) → Contents → Option ControlError
trailer_error cycle_date none c = some missing_trailer
trailer_error cycle_date (some trailer) c =
    if not (eq_text (at_field "TRL_BUS_DATE" trailer) cycle_date)
    then some (cycle_mismatch (at_field "TRL_BUS_DATE" trailer) cycle_date)
    else count_error (parse_int (at_field "TRL_REC_COUNT" trailer)) trailer c

-- `header or {}`
abbrev pub or_no_header : Option (Dict Text) → Dict Text
or_no_header none = []
or_no_header (some header) = header

abbrev pub cycle_of : Contents → Text
cycle_of c = at_field "HDR_BUS_DATE" (or_no_header c.header)

unfoldable pub control_error_of : Contents → Option ControlError
control_error_of c =
    if is_empty (or_no_header c.header)
    then some missing_header
    else trailer_error (cycle_of c) c.trailer c

-- `parse_custody_file` on the lines of the file, as they are read in text mode.
unfoldable pub parse_custody_file : Text → Text → List Text → ParsedBatch
parse_custody_file batch_id name lines =
    let c = take_records (iter_records 1 lines) nothing_read in
    record {
      batch_id = batch_id;
      file_name = name;
      cycle_date = cycle_of c;
      contents = c;
      control_error = control_error_of c;
    }

-- The batch-completeness event. The two totals are mantissas at the scales 4 and 2.
pub record BatchManifest : Type 0 where
  pub batch_id : Text
  pub cycle_date : Text
  pub file_name : Text
  pub record_count : ℕ
  pub trailer_record_count : ℤ
  pub control_total_qty : ℤ
  pub control_total_value : ℤ
  pub status : String
  pub fail_reason : Option ControlError
  pub rejected_count : ℕ
  pub extracted_at : Text

abbrev pub totals_or_zero : Decoded (ℤ × ℤ) → ℤ × ℤ
totals_or_zero (fails e) = (pos 0, pos 0)
totals_or_zero (ok totals) = totals

abbrev pub number_or_zero : Option ℤ → ℤ
number_or_zero none = pos 0
number_or_zero (some n) = n

abbrev pub trailer_count : Option (Dict Text) → ℤ
trailer_count none = pos 0
trailer_count (some trailer) = number_or_zero (parse_int (at_field "TRL_REC_COUNT" trailer))

abbrev pub status_of : Option ControlError → String
status_of none = status_complete
status_of (some e) = status_failed

unfoldable pub build_manifest : ParsedBatch → ℕ → Text → BatchManifest
build_manifest batch produced extracted_at =
    let totals = totals_or_zero (sum_control_totals batch.contents.details) in
    record {
      batch_id = batch.batch_id;
      cycle_date = batch.cycle_date;
      file_name = batch.file_name;
      record_count = produced;
      trailer_record_count = trailer_count batch.contents.trailer;
      control_total_qty = totals.0;
      control_total_value = totals.1;
      status = status_of batch.control_error;
      fail_reason = batch.control_error;
      rejected_count = length batch.contents.rejects;
      extracted_at = extracted_at;
    }
