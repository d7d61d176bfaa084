-- ===== src/Files/FixedWidth.antt =====
-- src/ods_ingest/adapters/file/fixed_width.py: the layouts of the custody file, and its records.
pub mod RoundTrip
use bank_ods_unified_api.Prelude.{
  ℕ, suc, ◌+◌, ◌-◌, String, Bool, Option, none, some, List, [], ◌∷◌, ◌++◌, length, take, drop,
  replicate, ltb, ◌==◌, ◌||◌, if◌then◌else◌, map,
}
use bank_ods_unified_api.Prelude.Text.{Text, codes, eq_text}
use bank_ods_unified_api.Prelude.Dict.{Dict, lookup}
use bank_ods_unified_api.Prelude.Strip.{is_space, rstrip, strip, is_empty}

abbrev pub record_length : ℕ
record_length = 200

abbrev pub rec_type_header : Text
rec_type_header = codes "01"

abbrev pub rec_type_detail : Text
rec_type_detail = codes "03"

abbrev pub rec_type_trailer : Text
rec_type_trailer = codes "99"

pub record Field : Type 0 where
  pub name : String
  pub width : ℕ

abbrev pub field : String → ℕ → Field
field name width = record { name = name; width = width }

-- A field with its first position and the position behind it.
abbrev pub Layout : Type 0
Layout = List (Field × ℕ × ℕ)

unfoldable pub offsets_from : ℕ → List Field → Layout
offsets_from pos [] = []
offsets_from pos (f ∷ fs) = (f, pos, pos + f.width) ∷ offsets_from (pos + f.width) fs

unfoldable pub offsets : List Field → Layout
offsets fields = offsets_from 0 fields

abbrev pub header_fields : List Field
header_fields =
    field "HDR_REC_TYPE" 2
    ∷ field "HDR_BUS_DATE" 8
    ∷ field "HDR_SRC_SYS_ID" 8
    ∷ field "HDR_CREATED_TS" 14
    ∷ field "HDR_FILLER" 168
    ∷ []

abbrev pub detail_fields : List Field
detail_fields =
    field "POS_REC_TYPE" 2
    ∷ field "POS_BUS_DATE" 8
    ∷ field "POS_BANK_NBR" 3
    ∷ field "POS_BRANCH_CD" 4
    ∷ field "POS_ACCT_NBR" 12
    ∷ field "POS_ACCT_TYPE_CD" 2
    ∷ field "POS_CUSIP_NBR" 9
    ∷ field "POS_ISIN_NBR" 12
    ∷ field "POS_SEC_DESC" 40
    ∷ field "POS_ASSET_CLS_CD" 3
    ∷ field "POS_REG_TYPE_CD" 1
    ∷ field "POS_LOC_CD" 4
    ∷ field "POS_SHR_QTY" 16
    ∷ field "POS_SHR_QTY_PEND" 16
    ∷ field "POS_MKT_PRICE" 15
    ∷ field "POS_MKT_VALUE" 15
    ∷ field "POS_ACCR_INT" 11
    ∷ field "POS_PRICE_DT" 7
    ∷ field "POS_LAST_ACTVY_DT" 8
    ∷ field "POS_PLEDGE_IND" 1
    ∷ field "POS_CCY_CD" 3
    ∷ field "POS_SRC_SYS_ID" 8
    ∷ []

abbrev pub trailer_fields : List Field
trailer_fields =
    field "TRL_REC_TYPE" 2
    ∷ field "TRL_BUS_DATE" 8
    ∷ field "TRL_REC_COUNT" 9
    ∷ field "TRL_TOT_SHR_QTY" 18
    ∷ field "TRL_TOT_MKT_VALUE" 18
    ∷ field "TRL_FILLER" 145
    ∷ []

-- The messages of `ParseError`.
pub data ParseError : Type 0 where
  wrong_length : ℕ → ParseError
  wrong_type : Text → ParseError
  too_long : String → ParseError
  unknown_type : Text → ParseError

pub data Parsed (A : Type 0) : Type 0 where
  parsed : A → Parsed A
  parse_error : ParseError → Parsed A

-- `line[start:end]`
abbrev pub slice : ℕ → ℕ → Text → Text
slice start end line = take (end - start) (drop start line)

unfoldable pub cells : Text → Layout → Dict Text
cells line [] = []
cells line ((f, start, end) ∷ layout) =
    (f.name, rstrip is_space (slice start end line)) ∷ cells line layout

-- `_unpack`; the names of a layout are different.
unfoldable pub unpack : Text → Layout → Parsed (Dict Text)
unpack line layout =
    if length line == record_length
    then parsed (cells line layout)
    else parse_error (wrong_length (length line))

abbrev pub or_empty : Option Text → Text
or_empty none = []
or_empty (some t) = t

-- The test of the record type that each of the parsers makes.
abbrev pub of_type : String → Text → Parsed (Dict Text) → Parsed (Dict Text)
of_type name expected (parse_error e) = parse_error e
of_type name expected (parsed rec) =
    if eq_text (or_empty (lookup name rec)) expected
    then parsed rec
    else parse_error (wrong_type (or_empty (lookup name rec)))

unfoldable pub parse_header : Text → Parsed (Dict Text)
parse_header line = of_type "HDR_REC_TYPE" rec_type_header (unpack line (offsets header_fields))

unfoldable pub parse_detail : Text → Parsed (Dict Text)
parse_detail line = of_type "POS_REC_TYPE" rec_type_detail (unpack line (offsets detail_fields))

unfoldable pub parse_trailer : Text → Parsed (Dict Text)
parse_trailer line = of_type "TRL_REC_TYPE" rec_type_trailer (unpack line (offsets trailer_fields))

-- `v.ljust(width)`
abbrev pub ljust : ℕ → Text → Text
ljust width v = v ++ replicate (width - length v) b' '

abbrev pub onto_line : Text → Parsed Text → Parsed Text
onto_line cell (parsed line) = parsed (cell ++ line)
onto_line cell (parse_error e) = parse_error e

-- `values.get(f.name, "")`
abbrev pub value_at : Dict Text → Field → Text
value_at values f = or_empty (lookup f.name values)

unfoldable pub pack : List Field → Dict Text → Parsed Text
pack [] values = parsed []
pack (f ∷ fs) values =
    let rest = pack fs values in
    if ltb f.width (length (value_at values f))
    then parse_error (too_long f.name)
    else onto_line (ljust f.width (value_at values f)) rest

abbrev pub is_line_end : ℕ → Bool
is_line_end c = c == b'\r' || c == b'\n'

-- `iter_records`: the record type, the line number and the line of each line that is not blank.
unfoldable pub iter_records : ℕ → List Text → List (Text × ℕ × Text)
iter_records line_no [] = []
iter_records line_no (raw ∷ lines) =
    let line = rstrip is_line_end raw in
    let rest = iter_records (suc line_no) lines in
    if is_empty (strip line) then rest else (take 2 line, line_no, line) ∷ rest
