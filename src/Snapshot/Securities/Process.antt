-- ===== src/Snapshot/Securities/Process.antt =====
-- src/ods_ingest/adapters/snapshot/securities.py: `process_file`, as a step of the world that it reads
-- and writes: the index on disk, the topic, and the operational state.
pub mod Landed
pub mod Delivery
use bank_ods_unified_api.Prelude.{
  ℕ, suc, ◌+◌, Bool, true, false, Option, none, some, List, [], ◌∷◌, ◌++◌, length, zero,
  if◌then◌else◌,
}
use bank_ods_unified_api.Prelude.Text.{Text}
use bank_ods_unified_api.Prelude.Int.{ℤ, pos_part}
use bank_ods_unified_api.Envelope.{Codec, build_headers}
use bank_ods_unified_api.Bus.Producer.{Kafka, Session, session}
use bank_ods_unified_api.State.{Documents, StateDoc, Manifest, batch_seen, record_batch}
use bank_ods_unified_api.Files.Batches.{batch_id_for, status_complete}
use bank_ods_unified_api.Snapshot.Diff.{Row, Delta, IndexEntry, Incoming, no_stats}
use bank_ods_unified_api.Snapshot.Merge.{Run, plain, sort_merge}
use bank_ods_unified_api.Snapshot.Merge.Counts.{entries}
use bank_ods_unified_api.Snapshot.Index.{Disk, read_index, write_index, last_disk}
use bank_ods_unified_api.Snapshot.Securities.{
  topic, source_system, adapter_id, adapter_version, Csv, Snapshot, unusable, usable, read_snapshot,
  wire_record, Message, SnapshotResult, fresh_result, Failure, unusable_snapshot, not_delivered,
  disk_failed, store_failed, Outcome, returned, raised, run_failure,
}

pub record World (docs : Documents StateDoc) : Type 0 where
  pub disk : Disk
  pub bus : List Message
  pub store : docs.Store

-- The disk after so many states, or after all of them if there are fewer.
unfoldable pub disk_after : ℕ → Disk → List Disk → Disk
disk_after zero d ds = d
disk_after (suc n) d [] = d
disk_after (suc n) d (e ∷ ds) = disk_after n e ds

-- What fails outside: the lookup in the ledger raises; writing the index raises after so many of the
-- states that it puts the disk in; the update of the ledger raises, and has been made or not.
pub record Faults : Type 0 where
  pub lookup : Bool
  pub disk : Option ℕ
  pub ledger : Option Bool

-- What the file's content is read and hashed with, the readings of the clock, and the failures.
pub record Environment : Type 0 where
  pub codec : Codec
  pub digest : Row → Text
  pub sha256_hex : Text → Text
  pub timestamp_iso : Option Text → Option Text
  pub dict_reader : List Text → Csv
  pub now : Text
  pub faults : Faults

module _ (env : Environment) where
  open env use {codec, digest, sha256_hex, now}

  -- The messages of the loop. The sequence number counts every pair, also those that produce
  -- nothing.
  unfoldable pub to_messages : Text → ℕ → List (Option Delta × Option IndexEntry) → List Message
  to_messages batch_id seq [] = []
  to_messages batch_id seq ((none, entry) ∷ ps) = to_messages batch_id (seq + 1) ps
  to_messages batch_id seq ((some delta, entry) ∷ ps) =
      record {
        content = wire_record now delta;
        headers = build_headers codec now (record {
          source_system = source_system;
          adapter_id = adapter_id;
          adapter_version = adapter_version;
          batch_id = some batch_id;
          record_seq = some seq;
          extracted_at = some now;
        });
      }
      ∷ to_messages batch_id (seq + 1) ps

  unfoldable pub merge_run : Disk → List Incoming → Run
  merge_run disk incoming = sort_merge digest (read_index disk.index) (plain incoming) no_stats

  unfoldable pub result_of : Text → Text → ℤ → Run → SnapshotResult
  result_of batch_id name declared run = record {
    batch_id = batch_id;
    file_name = name;
    stats = run.stats;
    produced = length (to_messages batch_id 1 run.pairs);
    declared_count = declared;
  }

  unfoldable pub manifest_of : Text → Text → ℤ → Run → Manifest
  manifest_of batch_id name declared run = record {
    batch_id = batch_id;
    file_name = name;
    topic = topic;
    record_count = length (to_messages batch_id 1 run.pairs);
    declared_count = pos_part declared;
    status = status_complete;
    extracted_at = now;
  }

  module _ (docs : Documents StateDoc) (kafka : Kafka Message) where
    -- `write_index`, which raises after so many states of the disk or after the last one.
    abbrev pub replace_index : Option ℕ → List IndexEntry → World docs → Option Failure × World docs
    replace_index none es w = (none, record w { disk = last_disk w.disk (write_index w.disk es) })
    replace_index (some n) es w =
        (some disk_failed, record w { disk = disk_after n w.disk (write_index w.disk es) })

    -- `state.record_batch`
    abbrev pub record_run : Option Bool → Text → Manifest → World docs → Option Failure × World docs
    record_run none id m w = (none, record w { store = record_batch docs now id m w.store })
    record_run (some true) id m w =
        (some store_failed, record w { store = record_batch docs now id m w.store })
    record_run (some false) id m w = (some store_failed, w)

    abbrev pub after_ledger : SnapshotResult → Option Failure × World docs → Outcome × World docs
    after_ledger result (some e, w) = (raised e, w)
    after_ledger result (none, w) = (returned result, w)

    abbrev pub after_index :
        Text → SnapshotResult → Manifest → Option Failure × World docs → Outcome × World docs
    after_index batch_id result m (some e, w) = (raised e, w)
    after_index batch_id result m (none, w) =
        after_ledger result (record_run env.faults.ledger batch_id m w)

    -- The end of `process_file`, by what the producer's block raised: the index and the ledger are
    -- written only if it did not raise.
    unfoldable pub conclude :
        Text → Text → ℤ → Run → Session Message Failure → World docs → Outcome × World docs
    conclude batch_id name declared run s w =
        let w' = record w { bus = w.bus ++ s.landed } in
        elim s.error [
          | some e ↦ (raised e, w')
          | none ↦
              after_index batch_id (result_of batch_id name declared run)
                (manifest_of batch_id name declared run)
                (replace_index env.faults.disk (entries run.pairs) w')
        ]

    unfoldable pub preview : Text → Text → ℤ → Run → World docs → Outcome × World docs
    preview batch_id name declared run w = elim (run_failure run.error) [
      | some e ↦ (raised e, w)
      | none ↦ (returned (result_of batch_id name declared run), w)
    ]

    unfoldable pub process_snapshot :
        Bool → Text → Text → Snapshot → World docs → Outcome × World docs
    process_snapshot dry_run batch_id name (unusable e) w = (raised (unusable_snapshot e), w)
    process_snapshot dry_run batch_id name (usable incoming declared) w =
        let run = merge_run w.disk incoming in
        if dry_run
        then preview batch_id name declared run w
        else conclude batch_id name declared run
            (session kafka not_delivered (to_messages batch_id 1 run.pairs) (run_failure run.error))
            w

    -- The rest, when the ledger has been asked.
    unfoldable pub process_new : Bool → Text → Text → World docs → Outcome × World docs
    process_new dry_run name content w =
        let batch_id = batch_id_for sha256_hex name content in
        if batch_seen docs batch_id w.store
        then (returned (fresh_result batch_id name), w)
        else process_snapshot dry_run batch_id name
            (read_snapshot env.timestamp_iso env.dict_reader content) w

    unfoldable pub process_file : Bool → Text → Text → World docs → Outcome × World docs
    process_file dry_run name content w =
        if env.faults.lookup then (raised store_failed, w) else process_new dry_run name content w
