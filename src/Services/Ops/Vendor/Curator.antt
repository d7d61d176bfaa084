-- ===== src/Services/Ops/Vendor/Curator.antt =====
-- src/bank_ods/services/ops.py and src/ods_ingest/curation/vendor_securities.py: the vendor
-- reconciliation beside the curator that it reports on.
use bank_ods_unified_api.Prelude.{
  ℕ, ◌+◌, ◌≡◌, refl, ap, ◌∙◌, false, Option, none, some, List, [], ◌∷◌, length, map, All, if-cases,
  arith,
}
use bank_ods_unified_api.Prelude.Text.{Text, eq_text, compare_text}
use bank_ods_unified_api.Prelude.Strip.{is_empty}
use bank_ods_unified_api.Prelude.Index.{
  Index, elem, get, get_if, put, set_default, non_empty, or_else,
}
use bank_ods_unified_api.Curation.Reference.{SecurityDoc, put_if, default_if}
use bank_ods_unified_api.Curation.Stats.{CurationStats, skipped, skipped-skip, see}
use bank_ods_unified_api.Curation.Vendor.{
  VendorRow, SecurityIndex, SecurityUpdate, index_security, put_sedols, load_securities, no_index,
  clean, upper, padded, resolve, or_found, curate_rows, curate_record, curate_resolved,
  onto_updates,
}
use bank_ods_unified_api.Services.Identifiers.{cusip_from_isin}
use bank_ods_unified_api.Services.Ops.Vendor.{
  VendorTables, no_tables, enter_cusip, enter_isin, enter_embedded, enter_listings, enter_sedol,
  vendor_tables, clean_value, security_id_of, tally_row, match_rows, UnmatchedRow,
}

clean_value-clean : (value : Option Text) → clean_value value ≡ clean value
unfolding clean_value clean elem upper compare_text
clean_value-clean none = refl
clean_value-clean (some value) = refl

-- The curator's index, as the query's tables.
abbrev tables_in : SecurityIndex → VendorTables
tables_in index = record {
  by_cusip = index.by_cusip;
  by_isin = index.by_isin;
  by_sedol = index.by_sedol;
}

abbrev tables : Index Text → Index Text → Index Text → VendorTables
tables c i s = record { by_cusip = c; by_isin = i; by_sedol = s }

enter_sedol-put_if :
    (sedol : Option Text) (sid : Text) (c i s : Index Text)
    → enter_sedol sedol sid (tables c i s) ≡ tables c i (put_if sedol sid s)
enter_sedol-put_if none sid c i s = refl
enter_sedol-put_if (some sedol) sid c i s = refl

enter_listings-put_sedols :
    (sedols : List (Option Text)) (sid : Text) (c i s : Index Text)
    → enter_listings sedols sid (tables c i s) ≡ tables c i (put_sedols sedols sid s)
unfolding enter_listings put_sedols
enter_listings-put_sedols [] sid c i s = refl
enter_listings-put_sedols (sedol ∷ sedols) sid c i s =
    ap (enter_listings sedols sid) (enter_sedol-put_if (non_empty sedol) sid c i s)
    ∙ enter_listings-put_sedols sedols sid c i (put_if (non_empty sedol) sid s)

enter_embedded-default_if :
    (embedded : Option Text) (sid : Text) (c i s : Index Text)
    → enter_embedded embedded sid (tables c i s) ≡ tables (default_if embedded sid c) i s
enter_embedded-default_if none sid c i s = refl
enter_embedded-default_if (some embedded) sid c i s = refl

enter_isin-put_if :
    (cusip isin : Option Text) (sid : Text) (c i s : Index Text)
    → enter_isin isin sid (enter_cusip cusip sid (tables c i s))
      ≡ tables
          (default_if (non_empty (cusip_from_isin isin)) sid (put_if cusip sid c))
          (put_if isin sid i)
          s
unfolding cusip_from_isin
enter_isin-put_if none none sid c i s = refl
enter_isin-put_if (some cusip) none sid c i s = refl
enter_isin-put_if none (some isin) sid c i s = enter_embedded-default_if _ sid c (put isin sid i) s
enter_isin-put_if (some cusip) (some isin) sid c i s =
    enter_embedded-default_if _ sid (put cusip sid c) (put isin sid i) s

vendor_tables-load_securities :
    (docs : List SecurityDoc) (index : SecurityIndex)
    → vendor_tables docs (tables_in index) ≡ tables_in (load_securities docs index)
unfolding vendor_tables load_securities
vendor_tables-load_securities [] index = refl
vendor_tables-load_securities (doc ∷ docs) index =
    ap (λ t. vendor_tables docs (enter_listings doc.sedols doc.security_id t))
      (enter_isin-put_if (non_empty doc.cusip) (non_empty doc.isin) doc.security_id index.by_cusip
        index.by_isin index.by_sedol)
    ∙ ap (vendor_tables docs) (enter_listings-put_sedols doc.sedols doc.security_id _ _ _)
    ∙ vendor_tables-load_securities docs (index_security doc index)

-- No identifier in the index is the empty text.
abbrev IsFilled : Index Text → Type 0
IsFilled m = All (λ e. is_empty e.1 ≡ false) m

abbrev IsFound : Option Text → Type 0
IsFound none = Unit
IsFound (some sid) = is_empty sid ≡ false

put-IsFilled :
    (k sid : Text) (m : Index Text) → is_empty sid ≡ false → IsFilled m → IsFilled (put k sid m)
unfolding put
put-IsFilled k sid [] h f = (h, tt)
put-IsFilled k sid ((j, v) ∷ m) h (f, fs) =
    if-cases IsFilled (eq_text j k) _ _ (λ e. (h, fs)) (λ e. (f, put-IsFilled k sid m h fs))

set_default-IsFilled :
    (k sid : Text) (m : Index Text)
    → is_empty sid ≡ false
    → IsFilled m
    → IsFilled (set_default k sid m)
unfolding set_default
set_default-IsFilled k sid [] h f = (h, tt)
set_default-IsFilled k sid ((j, v) ∷ m) h (f, fs) =
    if-cases IsFilled (eq_text j k) _ _ (λ e. (f, fs)) (λ e. (f, set_default-IsFilled k sid m h fs))

put_if-IsFilled :
    (k : Option Text) (sid : Text) (m : Index Text)
    → is_empty sid ≡ false
    → IsFilled m
    → IsFilled (put_if k sid m)
put_if-IsFilled none sid m h f = f
put_if-IsFilled (some k) sid m h f = put-IsFilled k sid m h f

default_if-IsFilled :
    (k : Option Text) (sid : Text) (m : Index Text)
    → is_empty sid ≡ false
    → IsFilled m
    → IsFilled (default_if k sid m)
default_if-IsFilled none sid m h f = f
default_if-IsFilled (some k) sid m h f = set_default-IsFilled k sid m h f

put_sedols-IsFilled :
    (sedols : List (Option Text)) (sid : Text) (m : Index Text)
    → is_empty sid ≡ false
    → IsFilled m
    → IsFilled (put_sedols sedols sid m)
unfolding put_sedols
put_sedols-IsFilled [] sid m h f = f
put_sedols-IsFilled (sedol ∷ sedols) sid m h f =
    put_sedols-IsFilled sedols sid _ h (put_if-IsFilled (non_empty sedol) sid m h f)

get-IsFound : (k : Text) (m : Index Text) → IsFilled m → IsFound (get k m)
unfolding get
get-IsFound k [] f = tt
get-IsFound k ((j, v) ∷ m) (f, fs) =
    if-cases IsFound (eq_text j k) (some v) (get k m) (λ e. f) (λ e. get-IsFound k m fs)

get_if-IsFound : (k : Option Text) (m : Index Text) → IsFilled m → IsFound (get_if k m)
get_if-IsFound none m f = tt
get_if-IsFound (some k) m f = get-IsFound k m f

abbrev AreFilled : SecurityIndex → Type 0
AreFilled index = IsFilled index.by_cusip × IsFilled index.by_isin × IsFilled index.by_sedol

load_securities-AreFilled :
    (docs : List SecurityDoc) (index : SecurityIndex)
    → All (λ doc. is_empty doc.security_id ≡ false) docs
    → AreFilled index
    → AreFilled (load_securities docs index)
unfolding load_securities
load_securities-AreFilled [] index h f = f
load_securities-AreFilled (doc ∷ docs) index (h, hs) (c, i, s) =
    load_securities-AreFilled docs (index_security doc index) hs (
      default_if-IsFilled _ doc.security_id _ h
          (put_if-IsFilled (non_empty doc.cusip) doc.security_id index.by_cusip h c),
      put_if-IsFilled (non_empty doc.isin) doc.security_id index.by_isin h i,
      put_sedols-IsFilled doc.sedols doc.security_id index.by_sedol h s,
    )

or_else-or_found : (o p q : Option Text) → IsFound o → p ≡ q → or_else o p ≡ or_found o q
or_else-or_found none p q f e = e
or_else-or_found (some sid) p q f e = rw f refl

or_found-IsFound : (o p : Option Text) → IsFound o → IsFound p → IsFound (or_found o p)
or_found-IsFound none p f g = g
or_found-IsFound (some sid) p f g = f

non_empty-IsFound : (o : Option Text) → IsFound o → non_empty o ≡ o
non_empty-IsFound none f = refl
non_empty-IsFound (some sid) f = rw f refl

resolve-IsFound :
    (index : SecurityIndex) (row : VendorRow) → AreFilled index → IsFound (resolve index row)
unfolding resolve
resolve-IsFound index row (c, i, s) =
    or_found-IsFound _ _ (get_if-IsFound (clean row.isin_code) index.by_isin i) (
      or_found-IsFound _ _ (get_if-IsFound (clean row.cusip) index.by_cusip c) (
        or_found-IsFound _ _ (get_if-IsFound (padded (clean row.cusip)) index.by_cusip c)
          (get_if-IsFound (clean row.sedol) index.by_sedol s)))

security_id_of-resolve :
    (index : SecurityIndex) (row : VendorRow)
    → AreFilled index
    → security_id_of (tables_in index) row ≡ resolve index row
unfolding security_id_of resolve
security_id_of-resolve index row (c, i, s) =
    rw (clean_value-clean row.isin_code, clean_value-clean row.cusip, clean_value-clean row.sedol)
      (or_else-or_found _ _ _ (get_if-IsFound (clean row.isin_code) index.by_isin i) (
        or_else-or_found _ _ _ (get_if-IsFound (clean row.cusip) index.by_cusip c) (
          or_else-or_found _ _ _ (get_if-IsFound (padded (clean row.cusip)) index.by_cusip c)
            refl)))

-- What the two report of the same rows.
abbrev pub Agrees :
    CurationStats → ℕ × List UnmatchedRow → List SecurityUpdate × CurationStats → Type 0
Agrees stats (matched, unmatched) (operations, after) =
    (length operations ≡ matched)
    × (after.curated ≡ stats.curated + matched)
    × (skipped after ≡ skipped stats + length unmatched)

row-Agrees :
    (row : VendorRow) (now : Text) (found : Option Text) (stats : CurationStats)
    (rest : ℕ × List UnmatchedRow) (run : List SecurityUpdate × CurationStats)
    → Agrees (curate_resolved row found (see stats) now).1 rest run
    → Agrees stats
        (tally_row row found rest)
        (onto_updates (curate_resolved row found (see stats) now).0 run)
unfolding skipped
row-Agrees row now none stats (m, u) (ops, after) (a, b, c) =
    let (s, e, d) = skipped-skip "UNMATCHED_VENDOR_RECORD" (see stats) in
    (a, omega arith, omega arith)
row-Agrees row now (some sid) stats (m, u) (ops, after) (a, b, c) =
    (omega arith, omega arith, omega arith)

match_rows-Agrees :
    (rows : List (VendorRow × Text)) (index : SecurityIndex) (stats : CurationStats)
    → AreFilled index
    → Agrees stats
        (match_rows (tables_in index) (map (λ r. r.0) rows))
        (curate_rows rows index stats)
unfolding match_rows curate_rows curate_record
match_rows-Agrees [] index stats f = (refl, omega arith, omega arith)
match_rows-Agrees ((row, now) ∷ rows) index stats f =
    rw (security_id_of-resolve index row f, non_empty-IsFound _ (resolve-IsFound index row f))
      (row-Agrees row now (resolve index row) stats _ _ (match_rows-Agrees rows index _ f))

-- If no security has an empty identifier, the vendor reconciliation and the curator agree on any
-- rows: as many rows are matched as the curator makes updates and counts as curated, and as many are
-- unmatched as it skips.
pub match_rows-curate_rows :
    (docs : List SecurityDoc) (rows : List (VendorRow × Text)) (stats : CurationStats)
    → All (λ doc. is_empty doc.security_id ≡ false) docs
    → Agrees stats
        (match_rows (vendor_tables docs no_tables) (map (λ r. r.0) rows))
        (curate_rows rows (load_securities docs no_index) stats)
match_rows-curate_rows docs rows stats h =
    rw (vendor_tables-load_securities docs no_index)
      (match_rows-Agrees rows _ stats (load_securities-AreFilled docs no_index h (tt, tt, tt)))
