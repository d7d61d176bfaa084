-- ===== src/Services/Ops/Tests.antt =====
-- Instances of the theorems on the operational queries.
use bank_ods_unified_api.Prelude.{◌≡◌, refl, none, some, [], ◌∷◌, map, true, ◌↔◌}
use bank_ods_unified_api.Prelude.Text.{Text, codes}
use bank_ods_unified_api.Prelude.Dict.{Dict}
use bank_ods_unified_api.Prelude.Index.{or_blank}
use bank_ods_unified_api.Curation.Stats.{new_stats}
use bank_ods_unified_api.Curation.Reference.{SecurityDoc, load}
use bank_ods_unified_api.Curation.Custody.{curate_record}
use bank_ods_unified_api.Curation.Vendor.{VendorRow, load_securities, no_index, curate_rows}
use bank_ods_unified_api.Services.Ops.Custody.{tables_of, account_of, security_of, reason_of}
use bank_ods_unified_api.Services.Ops.Custody.Curator.{as_reported, curate_record-reason_of}
use bank_ods_unified_api.Services.Ops.Custody.{reconciled}
use bank_ods_unified_api.Services.Ops.Release.{pass, Inputs, run_release_checks}
use bank_ods_unified_api.Services.Ops.Release.Healthy.{IsHealthy, run_release_checks-IsHealthy_iff}
use bank_ods_unified_api.Prelude.Int.{pos}
use bank_ods_unified_api.Services.Ops.Vendor.{vendor_tables, no_tables, match_rows}
use bank_ods_unified_api.Services.Ops.Vendor.Curator.{Agrees, match_rows-curate_rows}

abbrev apple : SecurityDoc
apple = record {
  security_id = codes "SEC-1";
  cusip = none;
  isin = some (codes "US0378331005");
  sedols = [];
}

abbrev rec : Dict Text
rec = ("POS_ACCT_NBR", codes "000000000007") ∷ ("POS_CUSIP_NBR", codes "037833100") ∷ []

curate_record-reason_of_example :
    let found = security_of (tables_of (apple ∷ []) ([], [])) rec in
    curate_record rec (load (codes "ACC-000007" ∷ []) (apple ∷ [])) new_stats (codes "now")
    ≡ as_reported rec
        (reason_of (codes "ACC-000007" ∷ []) [] (account_of rec) found)
        (or_blank (account_of rec))
        (or_blank found)
        new_stats
        (codes "now")
curate_record-reason_of_example =
    curate_record-reason_of rec (codes "ACC-000007" ∷ []) (apple ∷ []) [] new_stats (codes "now")

abbrev row : VendorRow
row = record {
  vendor_ref = none;
  isin_code = some (codes "US0378331005");
  cusip = none;
  sedol = none;
  issuer_name = none;
  issue_status = none;
  src_updated_at = none;
}

match_rows-curate_rows_example :
    Agrees new_stats
      (match_rows
        (vendor_tables (apple ∷ []) no_tables)
        (map (λ (r : VendorRow × Text). r.0) ((row, codes "now") ∷ [])))
      (curate_rows ((row, codes "now") ∷ []) (load_securities (apple ∷ []) no_index) new_stats)
match_rows-curate_rows_example =
    match_rows-curate_rows (apple ∷ []) ((row, codes "now") ∷ []) new_stats (refl, tt)

abbrev inputs : Inputs
inputs = record {
  reachable = true;
  collections = some (("accounts", 3) ∷ []);
  custody = some (
      reconciled record {
        cycle_date = codes "20260130";
        records = 2;
        matched = 1;
        unmatched = 1;
        issues = [];
      });
  feeds = some [];
  dead_letters = some 0;
}

run_release_checks-IsHealthy_iff_example :
    ((run_release_checks (λ date. some (pos 1)) inputs).0 ≡ pass)
    ↔ IsHealthy (λ date. some (pos 1)) inputs
run_release_checks-IsHealthy_iff_example =
    run_release_checks-IsHealthy_iff (λ date. some (pos 1)) inputs
