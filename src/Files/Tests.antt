-- ===== src/Files/Tests.antt =====
-- Instances of the theorems on the batch files.
use bank_ods_unified_api.Prelude.{◌≡◌, refl, none, some, false, [], ◌∷◌, replicate, ◌++◌, List}
use bank_ods_unified_api.Prelude.Text.{Text, codes, compare_text}
use bank_ods_unified_api.Prelude.Strip.{is_empty, strip, rstrip, is_space}
use bank_ods_unified_api.Prelude.Dict.{Dict, lookup}
use bank_ods_unified_api.Curation.Decode.{zoned_to_decimal, in_context}
use bank_ods_unified_api.Prelude.Int.{◌+ℤ◌}
use bank_ods_unified_api.Prelude.Numeral.{all_digits, digits_from, parse_int}
use bank_ods_unified_api.Files.Batches.{
  parse_custody_file, control_error_of, or_no_header, trailer_error, count_error, totals_error,
  sum_control_totals, take_records, take_record,
}
use bank_ods_unified_api.Files.Batches.Reconciled.{Reconciles, parse_custody_file-Reconciles}
use bank_ods_unified_api.Files.FixedWidth.{
  header_fields, offsets, unpack, pack, parsed, iter_records, parse_header, parse_detail,
  parse_trailer, offsets_from, cells,
}
use bank_ods_unified_api.Files.FixedWidth.RoundTrip.{trimmed, total, unpack-pack}

abbrev header : Dict Text
header =
    ("HDR_REC_TYPE", codes "01")
    ∷ ("HDR_BUS_DATE", codes "20260130")
    ∷ ("HDR_SRC_SYS_ID", codes "MF  ")
    ∷ []

abbrev line : Text
line = codes "0120260130MF      " ++ replicate 182 b' '

unpack-pack_example : unpack line (offsets header_fields) ≡ parsed (trimmed header_fields header)
unfolding pack lookup total
unpack-pack_example = unpack-pack header_fields header line refl refl

abbrev file : List Text
file =
    (line ++ b'\n' ∷ [])
    ∷ ((codes "03" ++ replicate 98 b' ')
        ++ (codes "0000000008505000"
            ++ (replicate 31 b' '
                ++ (codes "000000000012345" ++ (replicate 38 b' ' ++ b'\n' ∷ [])))))
    ∷ (codes "9920260130000000001000000000008505000000000000000012345" ++ replicate 145 b' ')
    ∷ []

file_reconciles : (parse_custody_file (codes "b") (codes "f") file).control_error ≡ none
unfolding parse_custody_file control_error_of trailer_error count_error totals_error
    sum_control_totals take_records take_record iter_records parse_header parse_detail parse_trailer
    unpack offsets offsets_from cells lookup zoned_to_decimal in_context strip rstrip is_space
    all_digits digits_from parse_int compare_text ◌+ℤ◌
file_reconciles = refl

parse_custody_file-Reconciles_example :
    let batch = parse_custody_file (codes "b") (codes "f") file in
    (is_empty (or_no_header batch.contents.header) ≡ false)
    × ((t : Dict Text) × (batch.contents.trailer ≡ some t)
        × Reconciles batch.cycle_date t batch.contents)
parse_custody_file-Reconciles_example =
    parse_custody_file-Reconciles (codes "b") (codes "f") file file_reconciles
