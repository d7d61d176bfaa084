-- ===== src/Services/Ops/Vendor.antt =====
-- src/bank_ods/services/ops.py: `reconcile_vendor_securities`, on the landed rows and the securities.
pub mod Curator
use bank_ods_unified_api.Prelude.{
  ℕ, suc, ◌+◌, Bool, true, false, Option, none, some, List, [], ◌∷◌, map, length, take,
  if◌then◌else◌,
}
use bank_ods_unified_api.Prelude.Text.{Text, codes}
use bank_ods_unified_api.Prelude.Strip.{strip, is_empty}
use bank_ods_unified_api.Prelude.Index.{
  Index, elem, get_if, put, set_default, non_empty, or_else, or_blank,
}
use bank_ods_unified_api.Curation.Reference.{SecurityDoc}
use bank_ods_unified_api.Curation.Vendor.{VendorRow, upper, padded}
use bank_ods_unified_api.Services.Identifiers.{cusip_from_isin}

-- `by_cusip`, `by_isin` and `by_sedol`.
pub record VendorTables : Type 0 where
  pub by_cusip : Index Text
  pub by_isin : Index Text
  pub by_sedol : Index Text

abbrev pub no_tables : VendorTables
no_tables = record { by_cusip = []; by_isin = []; by_sedol = [] }

abbrev pub enter_cusip : Option Text → Text → VendorTables → VendorTables
enter_cusip none sid t = t
enter_cusip (some cusip) sid t = record t { by_cusip = put cusip sid t.by_cusip }

abbrev pub enter_embedded : Option Text → Text → VendorTables → VendorTables
enter_embedded none sid t = t
enter_embedded (some embedded) sid t = record t { by_cusip = set_default embedded sid t.by_cusip }

abbrev pub enter_isin : Option Text → Text → VendorTables → VendorTables
enter_isin none sid t = t
enter_isin (some isin) sid t =
    enter_embedded (non_empty (cusip_from_isin (some isin))) sid
      (record t { by_isin = put isin sid t.by_isin })

abbrev pub enter_sedol : Option Text → Text → VendorTables → VendorTables
enter_sedol none sid t = t
enter_sedol (some sedol) sid t = record t { by_sedol = put sedol sid t.by_sedol }

unfoldable pub enter_listings : List (Option Text) → Text → VendorTables → VendorTables
enter_listings [] sid t = t
enter_listings (sedol ∷ sedols) sid t =
    enter_listings sedols sid (enter_sedol (non_empty sedol) sid t)

abbrev pub enter : SecurityDoc → VendorTables → VendorTables
enter doc t = enter_listings doc.sedols doc.security_id (
    enter_isin (non_empty doc.isin) doc.security_id
      (enter_cusip (non_empty doc.cusip) doc.security_id t))

unfoldable pub vendor_tables : List SecurityDoc → VendorTables → VendorTables
vendor_tables [] t = t
vendor_tables (doc ∷ docs) t = vendor_tables docs (enter doc t)

abbrev pub stripped : Option Text → Text
stripped none = []
stripped (some value) = strip value

-- `_clean`
unfoldable pub clean_value : Option Text → Option Text
clean_value value =
    let text = stripped value in
    if elem (upper text) (map codes ("" ∷ "N/A" ∷ "#N/A" ∷ "NA" ∷ "NULL" ∷ "NONE" ∷ "-" ∷ []))
    then none
    else some text

-- The chain of lookups, joined by `or`.
unfoldable pub security_id_of : VendorTables → VendorRow → Option Text
security_id_of t row = or_else (get_if (clean_value row.isin_code) t.by_isin) (
    or_else (get_if (clean_value row.cusip) t.by_cusip) (
      or_else (get_if (padded (clean_value row.cusip)) t.by_cusip)
        (get_if (clean_value row.sedol) t.by_sedol)))

pub record UnmatchedRow : Type 0 where
  pub vendor_ref : Option Text
  pub cusip : Option Text
  pub isin : Option Text
  pub sedol : Option Text

abbrev pub unmatched_row : VendorRow → UnmatchedRow
unmatched_row row = record {
  vendor_ref = row.vendor_ref;
  cusip = clean_value row.cusip;
  isin = clean_value row.isin_code;
  sedol = clean_value row.sedol;
}

-- `if security_id:`
abbrev pub tally_row : VendorRow → Option Text → ℕ × List UnmatchedRow → ℕ × List UnmatchedRow
tally_row row none (matched, unmatched) = (matched, unmatched_row row ∷ unmatched)
tally_row row (some sid) (matched, unmatched) = (suc matched, unmatched)

unfoldable pub match_rows : VendorTables → List VendorRow → ℕ × List UnmatchedRow
match_rows t [] = (0, [])
match_rows t (row ∷ rows) = tally_row row (non_empty (security_id_of t row)) (match_rows t rows)

pub record VendorReconciliation : Type 0 where
  pub vendor_rows : ℕ
  pub matched : ℕ
  pub unmatched : ℕ
  pub issues : List UnmatchedRow

abbrev pub vendor_summary : ℕ × List UnmatchedRow → VendorReconciliation
vendor_summary (matched, unmatched) = record {
  vendor_rows = matched + length unmatched;
  matched = matched;
  unmatched = length unmatched;
  issues = take 20 unmatched;
}

-- `none` is the error that the collection is empty.
unfoldable pub reconcile_vendor_securities :
    List VendorRow → List SecurityDoc → Option VendorReconciliation
reconcile_vendor_securities rows docs =
    if is_empty rows
    then none
    else some (vendor_summary (match_rows (vendor_tables docs no_tables) rows))
