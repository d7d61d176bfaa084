-- ===== src/Snapshot/Merge.antt =====
-- src/ods_ingest/adapters/snapshot/diff.py: `_checked` and `sort_merge`.
pub mod Order
pub mod Induction
pub mod Counts
pub mod Deltas
use bank_ods_unified_api.Prelude.{
  ◌+◌, String, Bool, false, not, Option, none, some, List, [], ◌∷◌, if◌then◌else◌,
}
use bank_ods_unified_api.Prelude.Text.{Text, lt_text, eq_text}
use bank_ods_unified_api.Snapshot.Diff.{
  Row, Change, IndexEntry, Delta, Incoming, DiffStats, content_hash,
}

-- A generator that may raise: what it yields, then its end or its error, which names the stream
-- and the key.
pub data Stream {ℓ} (A : Type ℓ) : Type ℓ where
  end : Stream A
  raises : String → Text → Stream A
  item : A → Stream A → Stream A

-- The test of `_checked`: there is a last key, and the next one is not above it.
abbrev pub out_of_order : Option Text → Text → Bool
out_of_order none key = false
out_of_order (some last) key = not (lt_text last key)

unfoldable pub checked {ℓ} : {A : Type ℓ} → (A → Text) → String → Option Text → Stream A → Stream A
checked key_of label last end = end
checked key_of label last (raises error key) = raises error key
checked key_of label last (item x xs) =
    let rest = checked key_of label (some (key_of x)) xs in
    if out_of_order last (key_of x) then raises label (key_of x) else item x rest

-- The stream of a list that raises nothing.
abbrev pub plain {ℓ} : {A : Type ℓ} → List A → Stream A
plain [] = end
plain (x ∷ xs) = item x (plain xs)

-- What the consumer of `sort_merge` sees: the pairs, the counters, and the error that ended it.
pub record Run : Type 0 where
  pub pairs : List (Option Delta × Option IndexEntry)
  pub stats : DiffStats
  pub error : Option (String × Text)

abbrev pub stop : DiffStats → Option (String × Text) → Run
stop stats error = record { pairs = []; stats = stats; error = error }

abbrev pub emit : Option Delta → Option IndexEntry → Run → Run
emit d e run = record run { pairs = (d, e) ∷ run.pairs }

abbrev pub removal : IndexEntry → Delta
removal l = record {
  change = Change.removed;
  key = l.key;
  content = none;
  source_timestamp = l.source_timestamp;
}

abbrev pub upsert : Change → Incoming → Delta
upsert change r = record {
  change = change;
  key = r.key;
  content = some r.content;
  source_timestamp = r.source_timestamp;
}

abbrev pub count_removed : DiffStats → DiffStats
count_removed s = record s { removed = s.removed + 1 }

abbrev pub count_added : DiffStats → DiffStats
count_added s = record s { added = s.added + 1 }

abbrev pub count_changed : DiffStats → DiffStats
count_changed s = record s { changed = s.changed + 1 }

abbrev pub count_unchanged : DiffStats → DiffStats
count_unchanged s = record s { unchanged = s.unchanged + 1 }

module _ (digest : Row → Text) where
  unfoldable pub entry_of : Incoming → IndexEntry
  entry_of r = record {
    key = r.key;
    source_timestamp = r.source_timestamp;
    content_hash = content_hash digest r.content [];
  }

  -- The loop. `left` and `right` are the heads of the two streams; a stream that raises does so
  -- where the loop pulls from it, the previous index first.
  unfoldable pub merge : Stream IndexEntry → Stream Incoming → DiffStats → Run
  merge (raises label key) right stats = stop stats (some (label, key))
  merge end (raises label key) stats = stop stats (some (label, key))
  merge end end stats = stop stats none
  merge end (item r rs) stats =
      emit (some (upsert Change.added r)) (some (entry_of r)) (merge end rs (count_added stats))
  merge (item l ls) (raises label key) stats = stop stats (some (label, key))
  merge (item l ls) end stats = emit (some (removal l)) none (merge ls end (count_removed stats))
  merge (item l ls) (item r rs) stats =
      let gone = emit (some (removal l)) none (merge ls (item r rs) (count_removed stats)) in
      let fresh =
        emit (some (upsert Change.added r)) (some (entry_of r))
          (merge (item l ls) rs (count_added stats)) in
      let moved =
        emit (some (upsert Change.changed r)) (some (entry_of r))
          (merge ls rs (count_changed stats)) in
      let same = emit none (some (entry_of r)) (merge ls rs (count_unchanged stats)) in
      if lt_text l.key r.key
      then gone
      else if lt_text r.key l.key
      then fresh
      else if eq_text l.content_hash (entry_of r).content_hash
      then same
      else moved

  unfoldable pub sort_merge : Stream IndexEntry → Stream Incoming → DiffStats → Run
  sort_merge previous incoming stats =
      merge (checked (λ e. e.key) "previous index" none previous)
        (checked (λ r. r.key) "incoming snapshot" none incoming) stats
