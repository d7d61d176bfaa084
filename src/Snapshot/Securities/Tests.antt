-- ===== src/Snapshot/Securities/Tests.antt =====
-- A snapshot file through the adapter, and instances of the theorems about `process_file`.
use mathlib.Core.List.Perm
use bank_ods_unified_api.Prelude.{
  ◌≡◌, refl, true, false, Option, none, some, String, [], ◌∷◌, ◌++◌, All, ◌⊎◌, if◌then◌else◌,
}
use bank_ods_unified_api.Prelude.Text.{Text, codes, compare_text}
use bank_ods_unified_api.Prelude.Strip.{
  strip, has, lines, split, splitlines, starts_with, universal_newlines, rstrip,
}
use bank_ods_unified_api.Prelude.Dict.{without, contains, insert, lookup}
use bank_ods_unified_api.Prelude.Int.{pos}
use bank_ods_unified_api.Prelude.Numeral.{parse_int, show}
use bank_ods_unified_api.Envelope.{Codec, build_headers}
use bank_ods_unified_api.Bus.Producer.{
  Kafka, produce, produce_all, flush_error, exit, session, queue_full,
}
use bank_ods_unified_api.State.{StateDoc, batch_seen, record_batch}
use bank_ods_unified_api.State.Memory.{memory}
use bank_ods_unified_api.Files.Batches.{batch_id_for}
use bank_ods_unified_api.Snapshot.Diff.{
  insert_sorted, sorted_items, IndexEntry, Incoming, content_hash,
}
use bank_ods_unified_api.Snapshot.Merge.{plain, sort_merge, checked, merge, entry_of}
use bank_ods_unified_api.Snapshot.Index.{
  Disk, IsStorable, read_index, write_index, last_disk, content_of, to_line, from_line,
  read_index-write_index, write_index_atomic,
}
use bank_ods_unified_api.Snapshot.Securities.{
  usable, incoming_of, read_snapshot, read_body, read_trailer, wire_record, declared_count, Message,
  not_delivered, returned, raised, columns, read_cells,
}
use bank_ods_unified_api.Snapshot.Securities.Process.{
  World, Environment, to_messages, merge_run, conclude, preview, process_snapshot, process_new,
  process_file, result_of, manifest_of,
}
use bank_ods_unified_api.Snapshot.Securities.Process.Delivery.{
  process_file-idle, read_index-process_file,
}

abbrev entry : IndexEntry
entry = record { key = codes "A"; source_timestamp = some (codes "t0"); content_hash = codes "one" }

abbrev other : IndexEntry
other = record { key = codes "B"; source_timestamp = some (codes "t1"); content_hash = codes "two" }

entry-IsStorable : IsStorable entry
unfolding has strip to_line
entry-IsStorable = record {
  key = (refl, refl, refl);
  stamp = codes "t0";
  stamped = refl;
  timestamp = (refl, refl, refl);
  digest = (refl, refl, refl);
  visible = refl;
}

other-IsStorable : IsStorable other
unfolding has strip to_line
other-IsStorable = record {
  key = (refl, refl, refl);
  stamp = codes "t1";
  stamped = refl;
  timestamp = (refl, refl, refl);
  digest = (refl, refl, refl);
  visible = refl;
}

abbrev disk : Disk
disk = record { index = some (codes "old"); temporary = none }

read_index-write_index_example :
    read_index (last_disk disk (write_index disk (entry ∷ other ∷ []))).index
    ≡ plain (entry ∷ other ∷ [])
read_index-write_index_example =
    read_index-write_index disk (entry ∷ other ∷ []) (entry-IsStorable, (other-IsStorable, tt))

write_index_atomic_example :
    All
      (λ x. (x.index ≡ some (codes "old")) ⊎ (x.index ≡ some (content_of (entry ∷ []))))
      (write_index disk (entry ∷ []))
write_index_atomic_example = write_index_atomic disk (entry ∷ [])

-- A record without a timestamp is written, and read back, as one with the timestamp "None".
unstamped :
    from_line (to_line (record entry { source_timestamp = none }))
    ≡ some (record entry { source_timestamp = some (codes "None") })
unfolding from_line to_line split rstrip
unstamped = refl

abbrev identity : Codec
identity = record { encode = λ s. s; decode = λ b. some b; decode-encode = λ s. refl }

abbrev perfect : Kafka Message
perfect = record {
  serializes = λ m. true;
  full = λ q. false;
  still_full = λ q. false;
  flush = λ q. record { landed = q; failures = []; remaining = 0 };
  delivered = λ q f r. Perm.refl q;
}

abbrev broken : Kafka Message
broken = record perfect { still_full = λ q. true; full = λ q. true }

abbrev one_row : String → Option Text
one_row c = if contains ("Vendor_Ref" ∷ []) c then some (codes "A") else some (codes "x")

abbrev env : Environment
env = record {
  codec = identity;
  digest = λ r. codes "new";
  sha256_hex = λ t. codes "0123456789abcdef";
  timestamp_iso = λ t. some (codes "t2");
  dict_reader = λ ls. record { has_column = λ c. true; rows = one_row ∷ [] };
  now = codes "now";
  faults = record { lookup = false; disk = none; ledger = none };
}

-- The ledger fails when everything else is done.
abbrev unrecorded : Environment
unrecorded = record env { faults = record { lookup = false; disk = none; ledger = some false } }

abbrev name : Text
name = codes "SECMASTER_1.csv"

abbrev file : Text
file = codes "header" ++ 10 ∷ (codes "A" ++ 10 ∷ codes "TRAILER,1")

abbrev world : World (memory StateDoc)
world = record { disk = record { index = none; temporary = none }; bus = []; store = [] }

program : Unit {0}
unfolding compare_text checked merge sort_merge entry_of content_hash without contains insert_sorted
    sorted_items strip has lines split splitlines starts_with universal_newlines rstrip insert
    lookup parse_int show build_headers produce produce_all flush_error exit session batch_seen
    record_batch batch_id_for read_index write_index content_of to_line from_line incoming_of
    read_snapshot read_body read_trailer wire_record declared_count to_messages merge_run conclude
    preview process_snapshot process_new process_file result_of manifest_of
program = tt

lands :
    (process_file env (memory StateDoc) perfect false name file world).0
    ≡ returned (record {
      batch_id = codes "SECMASTER_1.csv:0123456789ab";
      file_name = name;
      stats = record { added = 1; changed = 0; removed = 0; unchanged = 0 };
      produced = 1;
      declared_count = pos 1;
    })
unfolding program
lands = refl

abbrev first_row : Incoming
first_row = record {
  key = codes "A";
  source_timestamp = some (codes "t2");
  content = insert "SRC_UPDATED_AT" (some (codes "t2")) (read_cells columns one_row);
}

reads : read_snapshot env.timestamp_iso env.dict_reader file ≡ usable (first_row ∷ []) (pos 1)
unfolding program
reads = refl

fails :
    (process_file env (memory StateDoc) broken false name file world).0
    ≡ raised (not_delivered queue_full)
unfolding program
fails = refl

-- The index has moved by then.
index_moved :
    (process_file unrecorded (memory StateDoc) perfect false name file world).1.disk.index
    ≡ some (codes "A\tt2\tnew\n")
unfolding program
index_moved = refl

is_new : batch_seen (memory StateDoc) (batch_id_for env.sha256_hex name file) world.store ≡ false
unfolding program
is_new = refl

process_file-idle_example :
    (process_file env (memory StateDoc) perfect true name file world).1 ≡ world
process_file-idle_example =
    process_file-idle env (memory StateDoc) perfect name file world true refl

row-IsStorable : IsStorable (entry_of env.digest first_row)
unfolding program
row-IsStorable = record {
  key = (refl, refl, refl);
  stamp = codes "t2";
  stamped = refl;
  timestamp = (refl, refl, refl);
  digest = (refl, refl, refl);
  visible = refl;
}

no_index : read_index world.disk.index ≡ plain []
unfolding read_index
no_index = refl

read_index-process_file_example :
    read_index (process_file env (memory StateDoc) perfect false name file world).1.disk.index
    ≡ plain (entry_of env.digest first_row ∷ [])
read_index-process_file_example =
    read_index-process_file env (memory StateDoc) perfect name file world [] (first_row ∷ [])
      (pos 1)
      (record {
        batch_id = codes "SECMASTER_1.csv:0123456789ab";
        file_name = name;
        stats = record { added = 1; changed = 0; removed = 0; unchanged = 0 };
        produced = 1;
        declared_count = pos 1;
      })
      is_new reads lands no_index (row-IsStorable, tt)
