-- ===== src/Curation/Stats.antt =====
-- src/ods_ingest/curation/base.py: what a curation run counts, and the upserts into a semantic
-- collection. The collection's driver is the interface `Semantic`.
use bank_ods_unified_api.Prelude.{
  ℕ, ◌+◌, ◌≡◌, String, Option, none, some, List, [], ◌∷◌, if◌then◌else◌, str_eq, arith, str_eq_iff,
}
use bank_ods_unified_api.Prelude.Text.{Text}
use bank_ods_unified_api.Prelude.Dict.{Dict, lookup, insert}
use bank_ods_unified_api.Prelude.Strip.{is_empty}

pub record CurationStats : Type 0 where
  pub seen : ℕ
  pub curated : ℕ
  pub skipped_unknown_account : ℕ
  pub skipped_unknown_security : ℕ
  pub skipped_malformed : ℕ
  pub reasons : Dict ℕ

abbrev pub new_stats : CurationStats
new_stats = record {
  seen = 0;
  curated = 0;
  skipped_unknown_account = 0;
  skipped_unknown_security = 0;
  skipped_malformed = 0;
  reasons = [];
}

abbrev pub unknown_account : String
unknown_account = "UNKNOWN_ACCOUNT"

abbrev pub unknown_security : String
unknown_security = "UNKNOWN_SECURITY"

abbrev pub malformed_value : String
malformed_value = "MALFORMED_VALUE"

abbrev pub or_zero : Option ℕ → ℕ
or_zero none = 0
or_zero (some n) = n

-- The first line of `skip`.
abbrev pub counted : String → Dict ℕ → Dict ℕ
counted reason reasons = insert reason (or_zero (lookup reason reasons) + 1) reasons

unfoldable pub skip : String → CurationStats → CurationStats
skip reason stats =
    let s : CurationStats = record stats { reasons = counted reason stats.reasons } in
    if str_eq reason unknown_account
    then record s { skipped_unknown_account = s.skipped_unknown_account + 1 }
    else if str_eq reason unknown_security
    then record s { skipped_unknown_security = s.skipped_unknown_security + 1 }
    else record s { skipped_malformed = s.skipped_malformed + 1 }

unfoldable pub sum_values : Dict ℕ → ℕ
sum_values [] = 0
sum_values ((reason, n) ∷ reasons) = n + sum_values reasons

-- The property `skipped`.
unfoldable pub skipped : CurationStats → ℕ
skipped stats = sum_values stats.reasons

-- `stats.seen += 1` and `stats.curated += 1`
abbrev pub see : CurationStats → CurationStats
see stats = record stats { seen = stats.seen + 1 }

abbrev pub curate : CurationStats → CurationStats
curate stats = record stats { curated = stats.curated + 1 }

-- A semantic collection: `bulk_write` gives `upserted_count` and `matched_count`.
pub record Semantic (W : Type 0) : Type 1 where
  pub Db : Type 0
  pub bulk_write : List W → Db → Db × (ℕ × ℕ)

unfoldable pub bulk_upsert : {W : Type 0} (sem : Semantic W) → List W → sem.Db → ℕ × sem.Db
bulk_upsert sem operations db =
    let (db', (upserted, matched)) = sem.bulk_write operations db in
    if is_empty operations then (0, db) else (upserted + matched, db')

-- `set_on_insert_timestamps`: the document, and the stamps of an update and of an insert.
pub record Stamped (D : Type 0) : Type 0 where
  pub doc : D
  pub updated_at : Text
  pub created_at : Text

abbrev pub set_on_insert_timestamps : {D : Type 0} → D → Text → Stamped D
set_on_insert_timestamps doc now = record { doc = doc; updated_at = now; created_at = now }

-- A record that is skipped is counted once.
sum_values-counted :
    (reason : String) (reasons : Dict ℕ)
    → sum_values (counted reason reasons) ≡ sum_values reasons + 1
unfolding sum_values insert lookup
sum_values-counted reason [] = omega arith
sum_values-counted reason ((j, n) ∷ reasons) =
    ground (arith, str_eq_iff j reason, sum_values-counted reason reasons)

pub skipped-skip :
    (reason : String) (stats : CurationStats)
    → (skipped (skip reason stats) ≡ skipped stats + 1)
      × ((skip reason stats).seen ≡ stats.seen)
      × ((skip reason stats).curated ≡ stats.curated)
unfolding skipped skip
skipped-skip reason stats = ground (arith, sum_values-counted reason stats.reasons)

-- `curated + skipped == seen`
abbrev pub IsAccounted : CurationStats → Type 0
IsAccounted stats = stats.curated + skipped stats ≡ stats.seen
