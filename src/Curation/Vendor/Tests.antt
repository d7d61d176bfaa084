-- ===== src/Curation/Vendor/Tests.antt =====
-- Two rows for one security, the newer one first, and an instance of the theorem on the guard.
use bank_ods_unified_api.Prelude.{◌≡◌, refl, Option, none, some, [], ◌∷◌, ◌++◌}
use bank_ods_unified_api.Prelude.Text.{Text, codes, compare_text}
use bank_ods_unified_api.Prelude.Strip.{strip}
use bank_ods_unified_api.Prelude.Index.{elem, get}
use bank_ods_unified_api.Curation.Stats.{new_stats}
use bank_ods_unified_api.Curation.Vendor.{
  VendorRow, SecurityIndex, Security, upper, clean, resolve, map_status, updates_of, set_fields,
  curate_rows, curate_record, apply_all,
}
use bank_ods_unified_api.Curation.Vendor.Guard.{curate_rows-newest}

abbrev row_at : Option Text → Text → VendorRow
row_at issuer stamp = record {
  vendor_ref = none;
  isin_code = some (codes "US1");
  cusip = none;
  sedol = none;
  issuer_name = issuer;
  issue_status = some (codes "A");
  src_updated_at = some stamp;
}

abbrev index : SecurityIndex
index = record { by_cusip = []; by_isin = (codes "US1", codes "S1") ∷ []; by_sedol = [] }

abbrev unknown : Security
unknown = record { issuer = none; status = none; vendor_updated_at = none }

abbrev newer : VendorRow
newer = row_at none (codes "2026-02")

abbrev older : VendorRow
older = row_at (some (codes "Acme")) (codes "2026-01")

resolves : resolve index newer ≡ some (codes "S1")
unfolding resolve clean strip upper elem get compare_text
resolves = refl

curate_rows-newest_example :
    apply_all
      (codes "S1")
      (curate_rows ([] ++ (newer, codes "now") ∷ (older, codes "now") ∷ []) index new_stats).0
      unknown
    ≡ set_fields
        (record (updates_of newer (codes "now")) { vendor_updated_at = some (codes "2026-02") })
        (apply_all (codes "S1") (curate_rows [] index new_stats).0 unknown)
unfolding compare_text
curate_rows-newest_example =
    curate_rows-newest index (codes "S1") (codes "2026-02") newer (codes "now") []
      ((older, codes "now") ∷ []) new_stats unknown resolves refl tt ((λ e. refl), tt) refl

-- An older row that supplies what the newer one does not is kept only if it comes first: what the
-- security ends with depends on the order of the two.
order_matters :
    ((apply_all
        (codes "S1")
        (curate_rows ((older, codes "now") ∷ (newer, codes "now") ∷ []) index new_stats).0
        unknown).issuer
      ≡ some (codes "Acme"))
    × ((apply_all
          (codes "S1")
          (curate_rows ((newer, codes "now") ∷ (older, codes "now") ∷ []) index new_stats).0
          unknown).issuer
        ≡ none)
unfolding apply_all curate_rows curate_record resolve clean strip upper elem get compare_text
    map_status
order_matters = (refl, refl)
