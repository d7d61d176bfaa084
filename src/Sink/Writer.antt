-- ===== src/Sink/Writer.antt =====
-- src/ods_ingest/sink/writer.py: the guarded writes of one collection. MongoDB is the interface
-- `RawTier`. A document is what `model_dump` returns: it has every field of its model, so that
-- `$set` of it replaces all of them.
pub mod Newest
pub mod Landing
use bank_ods_unified_api.Prelude.{
  ℕ, ◌+◌, ◌≡◌, ◌≢◌, String, Bool, true, false, Option, none, some, List, [], ◌∷◌, map, ◌==◌, ◌⊎◌,
  if◌then◌else◌, str_eq, ◌&&◌, ◌↔◌, In,
}
use bank_ods_unified_api.Prelude.Text.{Text, lt_text, eq_text}
use bank_ods_unified_api.State.{Documents, StateDoc, record_sink_progress}
use bank_ods_unified_api.Topics.{Model}

-- The ordering field of a document: not there, null, or a text.
pub data Stamp : Type 0 where
  absent null : Stamp
  at : Text → Stamp

pub record Document (C : Type 0) : Type 0 where
  pub key : Text
  pub stamp : Stamp
  pub content : C

abbrev pub duplicate_key : ℕ
duplicate_key = 11000

-- `ReplaceOne(key, doc, upsert=True)`, `UpdateOne(key, {"$setOnInsert": doc}, upsert=True)`, and
-- the update of a document that has no stamp or an older one.
pub data WriteOp (C : Type 0) : Type 0 where
  replace insert_if_absent : Document C → WriteOp C
  update_if_older : Text → Document C → WriteOp C

-- The filter `{"$lt": incoming}` or `{"$exists": False}`: a null is there, and is not less than
-- a text.
abbrev pub is_older : Text → Stamp → Bool
is_older incoming absent = true
is_older incoming null = false
is_older incoming (at t) = lt_text t incoming

module _ {C : Type 0} where
  -- The write of a document with an ordering field, for its value.
  abbrev pub guarded : Document C → Stamp → WriteOp C
  guarded doc absent = insert_if_absent doc
  guarded doc null = insert_if_absent doc
  guarded doc (at incoming) = update_if_older incoming doc

  unfoldable pub write_op : Model → Document C → WriteOp C
  write_op model doc = if str_eq model.ordering_field "" then replace doc else guarded doc doc.stamp

  abbrev pub doc_of : WriteOp C → Document C
  doc_of (replace d) = d
  doc_of (insert_if_absent d) = d
  doc_of (update_if_older t d) = d

  -- What an operation leaves at its key, where no other document may have the key.
  abbrev pub effect : WriteOp C → Option (Document C) → Option (Document C)
  effect op none = some (doc_of op)
  effect (replace d) (some old) = some d
  effect (insert_if_absent d) (some old) = some old
  effect (update_if_older t d) (some old) = if is_older t old.stamp then some d else some old

  -- What a run of operations leaves at a key.
  unfoldable pub replay : Text → List (WriteOp C) → Option (Document C) → Option (Document C)
  replay key [] found = found
  replay key (op ∷ ops) found =
      replay key ops (if eq_text (doc_of op).key key then effect op found else found)

-- `upserted_count`, `matched_count`, and the codes of the errors.
pub record BulkResult : Type 0 where
  pub upserted : ℕ
  pub matched : ℕ
  pub errors : List ℕ

abbrev pub only_duplicates : List ℕ → Bool
only_duplicates [] = true
only_duplicates (code ∷ codes) = code == duplicate_key && only_duplicates codes

-- `bulk_write(ops, ordered=False)` runs the operations in an order of its own, `executed`. Where
-- each operation that failed was a refused upsert, the documents are as `replay` says.
pub record RawTier (C : Type 0) : Type 1 where
  pub Db : Type 0
  pub find : String → Text → Db → Option (Document C)
  pub bulk_write : String → List (WriteOp C) → Db → Db × BulkResult
  pub executed : String → List (WriteOp C) → Db → List (WriteOp C)
  pub executed-In :
      (collection : String) (ops : List (WriteOp C)) (db : Db) (op : WriteOp C)
      → In op (executed collection ops db) ↔ In op ops
  pub find-bulk_write :
      (collection : String) (ops : List (WriteOp C)) (db : Db) (key : Text)
      → only_duplicates (bulk_write collection ops db).1.errors ≡ true
      → find collection key (bulk_write collection ops db).0
        ≡ replay key (executed collection ops db) (find collection key db)

module _ {C : Type 0} (tier : RawTier C) (docs : Documents StateDoc) (now : Text) where
  -- The database and the operational state.
  pub record World : Type 0 where
    pub db : tier.Db
    pub ledger : docs.Store

  -- The body of the loop over the collections in `write_batch`: the count, where it does not
  -- raise.
  unfoldable pub write_collection : Text → String → List (WriteOp C) → World → Option ℕ × World
  write_collection topic collection ops w =
      let (db, result) = tier.bulk_write collection ops w.db in
      let count = result.upserted + result.matched in
      if only_duplicates result.errors
      then (
        some count,
        record { db = db; ledger = record_sink_progress docs now topic count collection w.ledger },
      )
      else (none, record w { db = db })
