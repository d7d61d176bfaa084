-- ===== src/Snapshot/Securities/Process/Delivery.antt =====
-- src/ods_ingest/adapters/snapshot/securities.py: when the index and the ledger move, only after every
-- delta has landed.
use bank_ods_unified_api.Prelude.{
  ◌≡◌, refl, sym, Bool, true, false, ◌||◌, none, List, Bool-cases, inl, inr, All, map, ◌⊎◌,
  if-cases,
}
use bank_ods_unified_api.Prelude.Text.{Text}
use bank_ods_unified_api.Prelude.Int.{ℤ}
use bank_ods_unified_api.Bus.Producer.{Kafka}
use bank_ods_unified_api.State.{Documents, StateDoc, batch_seen}
use bank_ods_unified_api.Files.Batches.{batch_id_for}
use bank_ods_unified_api.Snapshot.Diff.{Incoming, IndexEntry, no_stats}
use bank_ods_unified_api.Snapshot.Merge.{plain, entry_of, sort_merge}
use bank_ods_unified_api.Snapshot.Merge.Counts.{sort_merge-completes_iff, sort_merge-Accounts}
use bank_ods_unified_api.Snapshot.Index.{read_index, IsStorable, read_index-write_index}
use bank_ods_unified_api.Snapshot.Securities.{
  Snapshot, unusable, usable, read_snapshot, Message, SnapshotResult, Failure, Outcome, returned,
}
use bank_ods_unified_api.Snapshot.Securities.Process.{
  World, Environment, process_new, merge_run, process_snapshot, process_file,
}
use bank_ods_unified_api.Snapshot.Securities.Process.Landed.{
  IsUntouched, HasLanded, IsComplete, raised_not_returned, Concluded-returned, session-Concluded,
  preview-keeps,
}

module _ (env : Environment) (docs : Documents StateDoc) where
  open env use {sha256_hex}

  module _ (kafka : Kafka Message) (name content : Text) (w : World docs) where
    abbrev pub id_of : Text
    id_of = batch_id_for sha256_hex name content

    -- What a call that raises leaves, by what the file was read as.
    abbrev pub IsSafe : Failure → Snapshot → World docs → Type 0
    IsSafe e (unusable x) w' = IsUntouched env docs w w'
    IsSafe e (usable incoming declared) w' =
        IsUntouched env docs w w'
        ⊎ HasLanded env docs kafka id_of name declared (merge_run env w.disk incoming) w e w'

    snapshot_dry :
        (snapshot : Snapshot) → (process_snapshot env docs kafka true id_of name snapshot w).1 ≡ w
    unfolding process_snapshot
    snapshot_dry (unusable x) = refl
    snapshot_dry (usable incoming declared) =
        preview-keeps env docs kafka id_of name declared (merge_run env w.disk incoming) w

    new_idle :
        (dry_run : Bool)
        → (dry_run || batch_seen docs id_of w.store) ≡ true
        → (process_new env docs kafka dry_run name content w).1 ≡ w
    unfolding process_new
    new_idle true h = elim (Bool-cases (batch_seen docs id_of w.store)) [
      | inl seen ↦ rw seen
      | inr fresh ↦ rw fresh (snapshot_dry _)
    ]
    new_idle false h = rw h

    -- A dry run, and a call for a file that the ledger has, change nothing.
    pub process_file-idle :
        (dry_run : Bool)
        → (dry_run || batch_seen docs id_of w.store) ≡ true
        → (process_file env docs kafka dry_run name content w).1 ≡ w
    unfolding process_file
    process_file-idle dry_run h =
        if-cases (λ (x : Outcome × World docs). x.1 ≡ w) env.faults.lookup _ _ (λ _. refl)
          (λ _. new_idle dry_run h)

    new_returned :
        (incoming : List Incoming) (declared : ℤ) (r : SnapshotResult)
        → batch_seen docs id_of w.store ≡ false
        → read_snapshot env.timestamp_iso env.dict_reader content ≡ usable incoming declared
        → (process_new env docs kafka false name content w).0 ≡ returned r
        → IsComplete env docs kafka id_of name declared
            (merge_run env w.disk incoming)
            w
            (process_new env docs kafka false name content w).1
    unfolding process_new process_snapshot
    new_returned incoming declared r fresh snapshot h =
        let run = merge_run env w.disk incoming in
        rw (fresh, snapshot)
          (Concluded-returned env docs kafka id_of name declared run w _ r
            (rw (fresh, snapshot) at h)
            (session-Concluded env docs kafka id_of name declared run w))

    pub process_file-returned :
        (incoming : List Incoming) (declared : ℤ) (r : SnapshotResult)
        → batch_seen docs id_of w.store ≡ false
        → read_snapshot env.timestamp_iso env.dict_reader content ≡ usable incoming declared
        → (process_file env docs kafka false name content w).0 ≡ returned r
        → IsComplete env docs kafka id_of name declared
            (merge_run env w.disk incoming)
            w
            (process_file env docs kafka false name content w).1
    unfolding process_file
    process_file-returned incoming declared r fresh snapshot h =
        let P : Outcome × World docs → Type 0 = λ x.
          x.0 ≡ returned r
          → IsComplete env docs kafka id_of name declared (merge_run env w.disk incoming) w x.1 in
        if-cases P env.faults.lookup _ _ (λ _ e. absurd (raised_not_returned (sym e)))
          (λ _. new_returned incoming declared r fresh snapshot) h

    -- After a call that is no dry run, is for a new file and returns, the index that the next call
    -- reads has exactly one entry for each record of the snapshot, in order, if the old index could
    -- be read, the file is usable, and each new entry has a timestamp, no tab or line end, and a line that is not blank.
    pub read_index-process_file :
        (previous : List IndexEntry) (incoming : List Incoming) (declared : ℤ) (r : SnapshotResult)
        → batch_seen docs id_of w.store ≡ false
        → read_snapshot env.timestamp_iso env.dict_reader content ≡ usable incoming declared
        → (process_file env docs kafka false name content w).0 ≡ returned r
        → read_index w.disk.index ≡ plain previous
        → All IsStorable (map (entry_of env.digest) incoming)
        → read_index (process_file env docs kafka false name content w).1.disk.index
          ≡ plain (map (entry_of env.digest) incoming)
    unfolding merge_run
    read_index-process_file previous incoming declared r fresh snapshot h readable storable =
        let c = process_file-returned incoming declared r fresh snapshot h in
        let ordered : (sort_merge env.digest (plain previous) (plain incoming) no_stats).error
            ≡ none =
          rw readable at c.in_order in
        let (a, b) = (sort_merge-completes_iff env.digest previous incoming no_stats).0 ordered in
        let accounts = sort_merge-Accounts env.digest previous incoming no_stats a b in
        rw (c.index, readable, accounts.indexed)
          (read_index-write_index w.disk (map (entry_of env.digest) incoming) storable)
