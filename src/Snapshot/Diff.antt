-- ===== src/Snapshot/Diff.antt =====
-- src/ods_ingest/adapters/snapshot/diff.py: the retained key index, the deltas, and the counters.
-- SHA-256 over the JSON text of a record is the parameter `digest`.
use bank_ods_unified_api.Prelude.{ℕ, ◌+◌, String, Option, List, [], ◌∷◌, take, if◌then◌else◌}
use bank_ods_unified_api.Prelude.Text.{Text, codes, lt_text}
use bank_ods_unified_api.Prelude.Dict.{Dict, without}

-- A record of the feed; a column may hold `None`.
abbrev pub Row : Type 0
Row = Dict (Option Text)

pub data Change : Type 0 where
  added changed removed : Change

-- One line of the retained key index.
pub record IndexEntry : Type 0 where
  pub key : Text
  pub source_timestamp : Option Text
  pub content_hash : Text

pub record Delta : Type 0 where
  pub change : Change
  pub key : Text
  pub content : Option Row
  pub source_timestamp : Option Text

-- What `incoming` yields: (key, source timestamp, record).
pub record Incoming : Type 0 where
  pub key : Text
  pub source_timestamp : Option Text
  pub content : Row

pub record DiffStats : Type 0 where
  pub added : ℕ
  pub changed : ℕ
  pub removed : ℕ
  pub unchanged : ℕ

abbrev pub no_stats : DiffStats
no_stats = record { added = 0; changed = 0; removed = 0; unchanged = 0 }

abbrev pub total_seen : DiffStats → ℕ
total_seen s = s.added + s.changed + s.unchanged

abbrev pub emitted : DiffStats → ℕ
emitted s = s.added + s.changed + s.removed

-- `sorted(record.items())`: the keys of a dict are distinct, so the order is that of the keys.
unfoldable pub insert_sorted : String → Option Text → Row → Row
insert_sorted k v [] = (k, v) ∷ []
insert_sorted k v ((j, w) ∷ m) =
    if lt_text (codes k) (codes j) then (k, v) ∷ (j, w) ∷ m else (j, w) ∷ insert_sorted k v m

unfoldable pub sorted_items : Row → Row
sorted_items [] = []
sorted_items ((k, v) ∷ m) = insert_sorted k v (sorted_items m)

module _ (digest : Row → Text) where
  -- The first 16 characters of the digest of what is not excluded.
  unfoldable pub content_hash : Row → List String → Text
  unfolding insert_sorted sorted_items
  content_hash content exclude = take 16 (digest (without exclude (sorted_items content)))
