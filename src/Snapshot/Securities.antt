-- ===== src/Snapshot/Securities.antt =====
-- src/ods_ingest/adapters/snapshot/securities.py: the start-of-day true-up of the securities master.
-- `csv.DictReader`, SHA-256 and the clock are parameters; so is `source_timestamp_iso`.
pub mod Process
mod Tests
use mathlib.Core.Option
use bank_ods_unified_api.Prelude.{
  ℕ, suc, ◌+◌, String, Bool, true, false, not, Option, none, some, List, [], ◌∷◌, ◌++◌, map, length,
  ◌==◌, if◌then◌else◌,
}
use bank_ods_unified_api.Prelude.Text.{Text, codes}
use bank_ods_unified_api.Prelude.Dict.{Dict, insert, lookup}
use bank_ods_unified_api.Prelude.Strip.{split, splitlines, starts_with, strip, is_empty}
use bank_ods_unified_api.Prelude.Int.{ℤ, pos}
use bank_ods_unified_api.Prelude.Numeral.{parse_int}
use bank_ods_unified_api.Envelope.{Codec, KafkaHeaders, build_headers}
use bank_ods_unified_api.Bus.Producer.{Kafka, ProducerError, Session, session}
use bank_ods_unified_api.State.{Documents, StateDoc, Manifest, batch_seen, record_batch}
use bank_ods_unified_api.Files.Batches.{batch_id_for, status_complete}
use bank_ods_unified_api.Snapshot.Diff.{
  Row, Change, added, changed, removed, Delta, IndexEntry, Incoming, DiffStats, no_stats,
}
use bank_ods_unified_api.Snapshot.Merge.{Run, plain, sort_merge}
use bank_ods_unified_api.Snapshot.Merge.Counts.{entries}
use bank_ods_unified_api.Snapshot.Index.{Disk, read_index, write_index, last_disk}

abbrev pub topic : String
topic = "ods.raw.vendorsec.securities"

abbrev pub source_system : Text
source_system = codes "VENDORSEC_SAAS"

abbrev pub adapter_id : Text
adapter_id = codes "snapshot-adapter"

abbrev pub adapter_version : Text
adapter_version = codes "1.0.0"

abbrev pub key_field : String
key_field = "Vendor_Ref"

abbrev pub trailer_prefix : Text
trailer_prefix = codes "TRAILER"

abbrev pub removed_status : Text
removed_status = codes "DELISTED"

abbrev pub columns : List String
columns =
    "Vendor_Ref" ∷ "Cusip" ∷ "ISIN_CODE" ∷ "sedol" ∷ "TICKER" ∷ "SecurityDesc" ∷ "Issuer_Name"
    ∷ "ASSET_CLS" ∷ "CPN_RATE" ∷ "MATURITY_DT" ∷ "CCY" ∷ "CNTRY_DOM" ∷ "CALLABLE_FLG"
    ∷ "ISSUE_STATUS" ∷ "EXCH_CD" ∷ "LAST_UPD_TS" ∷ []

-- Why a snapshot is not usable.
pub data SnapshotError : Type 0 where
  is_empty_file no_trailer unreadable_count : SnapshotError
  missing_columns : List String → SnapshotError
  count_mismatch : ℤ → ℕ → SnapshotError

-- What `csv.DictReader` makes of the lines: the columns of the header row, and `row.get`.
pub record Csv : Type 0 where
  pub has_column : String → Bool
  pub rows : List (String → Option Text)

pub data Snapshot : Type 0 where
  unusable : SnapshotError → Snapshot
  usable : List Incoming → ℤ → Snapshot

-- `lines[-1]` and `lines[:-1]`.
abbrev pub split_last : List Text → Option (List Text × Text)
split_last [] = none
split_last (x ∷ xs) = elim (split_last xs) [ none ↦ some ([], x) | some p ↦ some (x ∷ p.0, p.1) ]

abbrev second : List Text → Option Text
second (x ∷ y ∷ r) = some y
second _ = none

-- `int(trailer.split(",")[1])`
unfoldable pub declared_count : Text → Option ℤ
declared_count trailer = elim (second (split b',' trailer)) [ none ↦ none | some t ↦ parse_int t ]

abbrev pub missing_from : (String → Bool) → List String → List String
missing_from has [] = []
missing_from has (c ∷ cs) = let rest = missing_from has cs in if has c then rest else c ∷ rest

abbrev equals : ℤ → ℕ → Bool
equals (ℤ.pos m) n = m == n
equals (ℤ.negsuc m) n = false

-- `(row.get(c) or "").strip()`
abbrev pub cell : Option Text → Text
cell none = []
cell (some t) = strip t

abbrev pub read_cells : List String → (String → Option Text) → Row
read_cells [] row = []
read_cells (c ∷ cs) row = (c, some (cell (row c))) ∷ read_cells cs row

module _ (timestamp_iso : Option Text → Option Text) (dict_reader : List Text → Csv) where
  -- One record of the file, with the key and the timestamp that it is yielded with.
  unfoldable pub incoming_of : (String → Option Text) → Incoming
  incoming_of row =
      let stamp = timestamp_iso (some (cell (row "LAST_UPD_TS"))) in
      record {
        key = cell (row key_field);
        source_timestamp = stamp;
        content = insert "SRC_UPDATED_AT" stamp (read_cells columns row);
      }

  unfoldable pub read_body : ℤ → Csv → Snapshot
  read_body declared csv = elim (missing_from csv.has_column columns) [
    | c ∷ cs ↦ unusable (missing_columns (c ∷ cs))
    | [] ↦
        if equals declared (length csv.rows)
        then usable (map incoming_of csv.rows) declared
        else unusable (count_mismatch declared (length csv.rows))
  ]

  unfoldable pub read_trailer : List Text → Text → Snapshot
  read_trailer body trailer =
      if not (starts_with trailer_prefix trailer)
      then unusable no_trailer
      else elim (declared_count trailer) [
        | none ↦ unusable unreadable_count
        | some declared ↦ read_body declared (dict_reader body)
      ]

  unfoldable pub read_snapshot : Text → Snapshot
  read_snapshot content = elim (split_last (splitlines content)) [
    | none ↦ unusable is_empty_file
    | some p ↦ read_trailer p.0 p.1
  ]

abbrev blanks : List String → Row
blanks [] = []
blanks (c ∷ cs) = (c, some []) ∷ blanks cs

-- A removal, as the record that the vendor would have sent.
unfoldable pub removal_record : Text → Delta → Row
removal_record now delta = insert "SRC_UPDATED_AT" (some now) (
    insert "ISSUE_STATUS" (some removed_status)
      (insert key_field (some delta.key) (blanks columns)))

abbrev content_or_empty : Option Row → Row
content_or_empty none = []
content_or_empty (some r) = r

-- The record that goes on the wire for a delta.
unfoldable pub wire_record : Text → Delta → Row
unfolding removal_record
wire_record now delta = elim delta.change [
  | removed ↦ removal_record now delta
  | _ ↦ content_or_empty delta.content
]

pub record Message : Type 0 where
  pub content : Row
  pub headers : KafkaHeaders

pub record SnapshotResult : Type 0 where
  pub batch_id : Text
  pub file_name : Text
  pub stats : DiffStats
  pub produced : ℕ
  pub declared_count : ℤ

abbrev pub fresh_result : Text → Text → SnapshotResult
fresh_result batch_id name = record {
  batch_id = batch_id;
  file_name = name;
  stats = no_stats;
  produced = 0;
  declared_count = pos 0;
}

pub data Failure : Type 0 where
  unusable_snapshot : SnapshotError → Failure
  out_of_order : String → Text → Failure
  not_delivered : ProducerError → Failure
  -- The OSError of the index, and the PyMongoError of the ledger.
  disk_failed store_failed : Failure

pub data Outcome : Type 0 where
  returned : SnapshotResult → Outcome
  raised : Failure → Outcome

abbrev pub run_failure : Option (String × Text) → Option Failure
run_failure none = none
run_failure (some (label, key)) = some (out_of_order label key)
