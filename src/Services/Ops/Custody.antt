-- ===== src/Services/Ops/Custody.antt =====
-- src/bank_ods/services/ops.py: `reconcile_custody_feed`. The raw documents of a cycle are those of the
-- collection in its order; a null of a field counts as absent, as `int(None)` and `int("")` both
-- raise.
pub mod Curator
use bank_ods_unified_api.Prelude.{
  ℕ, suc, ◌+◌, String, Bool, true, false, not, ◌||◌, ◌&&◌, Option, none, some, List, [], ◌∷◌,
  length, take, if◌then◌else◌,
}
use bank_ods_unified_api.Prelude.Text.{Text, eq_text, lt_text}
use bank_ods_unified_api.Prelude.Dict.{Dict, lookup}
use bank_ods_unified_api.Prelude.Strip.{is_empty}
use bank_ods_unified_api.Prelude.Index.{
  Index, elem, get_if, put, set_default, non_empty, or_else, or_blank,
}
use bank_ods_unified_api.Curation.Reference.{SecurityDoc}
use bank_ods_unified_api.Services.Identifiers.{account_id_from_custody, cusip_from_isin}

-- `sec_by_cusip` and `sec_by_isin`.
abbrev pub Tables : Type 0
Tables = Index Text × Index Text

abbrev pub note_embedded : Option Text → Text → Tables → Tables
note_embedded none sid t = t
note_embedded (some embedded) sid (by_cusip, by_isin) = (set_default embedded sid by_cusip, by_isin)

abbrev pub note_isin : Option Text → Text → Tables → Tables
note_isin none sid t = t
note_isin (some isin) sid (by_cusip, by_isin) =
    note_embedded (non_empty (cusip_from_isin (some isin))) sid (by_cusip, put isin sid by_isin)

abbrev pub note_cusip : Option Text → Text → Tables → Tables
note_cusip none sid t = t
note_cusip (some cusip) sid (by_cusip, by_isin) = (put cusip sid by_cusip, by_isin)

-- The loop over `securities`.
unfoldable pub tables_of : List SecurityDoc → Tables → Tables
tables_of [] t = t
tables_of (doc ∷ docs) t = tables_of docs (
    note_isin (non_empty doc.isin) doc.security_id
      (note_cusip (non_empty doc.cusip) doc.security_id t))

pub data Reason : Type 0 where
  unknown_account unknown_security no_curated_position : Reason

pub record Issue : Type 0 where
  pub rec_id : Option Text
  pub reason : Reason
  pub account_id : Option Text
  pub security_id : Option Text
  pub cusip : Option Text

-- `(account_id, security_id) in position_pairs`
unfoldable pub pair_in : List (Text × Text) → Text → Text → Bool
pair_in [] a s = false
pair_in ((b, t) ∷ pairs) a s = (eq_text b a && eq_text t s) || pair_in pairs a s

abbrev pub account_of : Dict Text → Option Text
account_of rec = account_id_from_custody (or_blank (lookup "POS_ACCT_NBR" rec))

unfoldable pub security_of : Tables → Dict Text → Option Text
security_of (by_cusip, by_isin) rec =
    or_else (get_if (non_empty (lookup "POS_CUSIP_NBR" rec)) by_cusip)
      (get_if (non_empty (lookup "POS_ISIN_NBR" rec)) by_isin)

-- The chain of tests on a record; `none` where it is matched.
unfoldable pub reason_of :
    List Text → List (Text × Text) → Option Text → Option Text → Option Reason
reason_of accounts pairs none security = some unknown_account
reason_of accounts pairs (some a) none =
    if not (elem a accounts) then some unknown_account else some unknown_security
reason_of accounts pairs (some a) (some s) =
    if not (elem a accounts)
    then some unknown_account
    else if not (pair_in pairs a s)
    then some no_curated_position
    else none

-- `matched` and `issues`.
abbrev pub Tally : Type 0
Tally = ℕ × List Issue

abbrev pub tally : Option Reason → Option Text → Dict Text → Option Text → Tally → Tally
tally none account rec security (matched, issues) = (suc matched, issues)
tally (some reason) account rec security (matched, issues) = (
  matched,
  record {
    rec_id = lookup "REC_ID" rec;
    reason = reason;
    account_id = account;
    security_id = security;
    cusip = lookup "POS_CUSIP_NBR" rec;
  }
      ∷ issues,
)

unfoldable pub classify : List Text → List (Text × Text) → Tables → List (Dict Text) → Tally
classify accounts pairs t [] = (0, [])
classify accounts pairs t (rec ∷ recs) =
    tally (reason_of accounts pairs (account_of rec) (security_of t rec)) (account_of rec) rec
      (security_of t rec) (classify accounts pairs t recs)

abbrev pub cycle_date_of : Dict Text → Text
cycle_date_of rec = or_blank (lookup "POS_BUS_DATE" rec)

abbrev pub later : Text → Option Text → Text
later date none = date
later date (some other) = if lt_text date other then other else date

-- `find({}).sort("POS_BUS_DATE", -1).limit(1)`, for the date.
unfoldable pub newest_cycle : List (Dict Text) → Option Text
newest_cycle [] = none
newest_cycle (rec ∷ recs) = some (later (cycle_date_of rec) (newest_cycle recs))

-- `find({"POS_BUS_DATE": cycle_date})`
unfoldable pub of_cycle : Text → List (Dict Text) → List (Dict Text)
of_cycle date [] = []
of_cycle date (rec ∷ recs) =
    let rest = of_cycle date recs in if eq_text (cycle_date_of rec) date then rec ∷ rest else rest

pub record Reconciliation : Type 0 where
  pub cycle_date : Text
  pub records : ℕ
  pub matched : ℕ
  pub unmatched : ℕ
  pub issues : List Issue

pub data CustodyReport : Type 0 where
  empty_feed : CustodyReport
  no_records : Text → CustodyReport
  reconciled : Reconciliation → CustodyReport

-- The four collections, as far as the query reads them.
pub record Collections : Type 0 where
  pub raw : List (Dict Text)
  pub account_ids : List Text
  pub securities : List SecurityDoc
  pub position_pairs : List (Text × Text)

abbrev pub summary : Text → List (Dict Text) → Tally → Reconciliation
summary date docs (matched, issues) = record {
  cycle_date = date;
  records = length docs;
  matched = matched;
  unmatched = length issues;
  issues = take 20 issues;
}

unfoldable pub reconcile_cycle : Collections → Text → CustodyReport
reconcile_cycle c date =
    let docs = of_cycle date c.raw in
    if is_empty docs
    then no_records date
    else reconciled (
        summary date docs
          (classify c.account_ids c.position_pairs (tables_of c.securities ([], [])) docs))

abbrev pub reconcile_newest : Collections → Option Text → CustodyReport
reconcile_newest c none = empty_feed
reconcile_newest c (some date) = reconcile_cycle c date

unfoldable pub reconcile_custody_feed : Collections → Option Text → CustodyReport
reconcile_custody_feed c none = reconcile_newest c (newest_cycle c.raw)
reconcile_custody_feed c (some date) = reconcile_cycle c date
