-- ===== src/Files/Watcher.antt =====
-- src/ods_ingest/adapters/file/watcher.py: `CustodyFileAdapter`, as steps of the world that it reads and
-- writes. The hash, the character encoding, the clock and the text of a parse error are those of
-- `Environment`; the Kafka client of each topic is a `Kafka`. Of a manifest the ledger keeps what every
-- manifest has.
pub mod Handled
pub mod Delivery
mod Tests
use bank_ods_unified_api.Prelude.{
  ℕ, zero, suc, ◌+◌, ◌-◌, String, Bool, true, false, not, ◌&&◌, ◌||◌, Option, none, some, List, [],
  ◌∷◌, ◌++◌, length, take, drop, map, leb, ◌==◌, if◌then◌else◌,
}
use bank_ods_unified_api.Prelude.Text.{Text, codes, eq_text, lt_text}
use bank_ods_unified_api.Prelude.Dict.{Dict, insert}
use bank_ods_unified_api.Prelude.Strip.{lines, universal_newlines, is_empty}
use bank_ods_unified_api.Prelude.Index.{Index, get, put, delete}
use bank_ods_unified_api.Prelude.Int.{pos_part}
use bank_ods_unified_api.Prelude.Numeral.{show}
use bank_ods_unified_api.Envelope.{Codec, KafkaHeaders, build_headers}
use bank_ods_unified_api.Bus.Dlq.{FailedRecord, DeadLetter, letter, note}
use bank_ods_unified_api.Bus.Producer.{Kafka, ProducerError, Session, session}
use bank_ods_unified_api.State.{Documents, StateDoc, Manifest, batch_seen, record_batch}
use bank_ods_unified_api.Topics.{TopicSpec, custody_positions, custody_batches, dlq}
use bank_ods_unified_api.Files.FixedWidth.{ParseError}
use bank_ods_unified_api.Files.Batches.{
  Reject, ParsedBatch, BatchManifest, ControlError, batch_id_for, rec_id_for, parse_custody_file,
  build_manifest,
}

abbrev pub adapter_id : Text
adapter_id = codes "file-adapter"

abbrev pub adapter_version : Text
adapter_version = codes "1.0.0"

abbrev pub incomplete_suffix : Text
incomplete_suffix = codes ".tmp"

-- The content of a file, decoded.
abbrev pub Folder : Type 0
Folder = Index Text

-- A detail record, and a manifest, with its headers.
pub record DetailMessage : Type 0 where
  pub values : Dict Text
  pub headers : KafkaHeaders

pub record ManifestMessage : Type 0 where
  pub manifest : BatchManifest
  pub headers : KafkaHeaders

-- What fails outside: the lookup in the ledger, its update, which has been made or not, the
-- publishing of a dead letter after so many others, which has been queued or not, and the move of a
-- file, whose target has been written or not.
pub record Faults : Type 0 where
  pub lookup : Bool
  pub ledger : Option Bool
  pub letters : Option (ℕ × Bool)
  pub move : Option Bool

pub record Environment : Type 0 where
  pub codec : Codec
  pub sha256_hex : Text → Text
  pub error_text : ParseError → Text
  pub now : Text
  -- `int(time.time())`
  pub seconds : ℕ
  pub faults : Faults

pub record World (docs : Documents StateDoc) : Type 0 where
  pub landing : Folder
  pub archive : Folder
  pub quarantine : Folder
  pub details : List DetailMessage
  pub manifests : List ManifestMessage
  pub letters : List DeadLetter
  pub store : docs.Store

-- `s.endswith(suffix)`
abbrev pub ends_with : Text → Text → Bool
ends_with suffix s =
    leb (length suffix) (length s) && eq_text (drop (length s - length suffix) s) suffix

-- A name at its place in the sorted list.
unfoldable pub insert_name : Text → List Text → List Text
insert_name n [] = n ∷ []
insert_name n (m ∷ ms) = let rest = insert_name n ms in if lt_text m n then m ∷ rest else n ∷ m ∷ ms

-- `discover`: the names of the completed files that match the pattern, sorted.
unfoldable pub discover : (Text → Bool) → Folder → List Text
discover matches [] = []
discover matches ((name, content) ∷ files) =
    let rest = discover matches files in
    if matches name && not (ends_with incomplete_suffix name) then insert_name name rest else rest

-- The place of the last dot, if there is one.
unfoldable pub last_dot : Text → Option ℕ
last_dot [] = none
last_dot (c ∷ s) = elim (last_dot s) [
  | some i ↦ some (suc i)
  | none ↦ if c == b'.' then some 0 else none
]

-- `f"{path.stem}.{seconds}{path.suffix}"`; a dot at either end of the name starts no suffix.
abbrev pub stamp_at : Option ℕ → Text → Text → Text
stamp_at none name stamp = name ++ b'.' ∷ stamp
stamp_at (some i) name stamp =
    if i == 0 || length name == i + 1
    then name ++ b'.' ∷ stamp
    else take i name ++ b'.' ∷ stamp ++ drop i name

unfoldable pub stamped_name : Text → Text → Text
stamped_name name stamp = stamp_at (last_dot name) name stamp

abbrev pub target_name : Option Text → Text → ℕ → Text
target_name none name seconds = name
target_name (some there) name seconds = stamped_name name (show seconds)

unfoldable pub moved_to : Text → Text → ℕ → Folder → Folder
moved_to name content seconds dest = put (target_name (get name dest) name seconds) content dest

abbrev pub ledger_manifest : BatchManifest → Manifest
ledger_manifest m = record {
  batch_id = m.batch_id;
  file_name = m.file_name;
  topic = "";
  record_count = m.record_count;
  declared_count = pos_part m.trailer_record_count;
  status = m.status;
  extracted_at = m.extracted_at;
}

-- The errors of the producers' blocks, of MongoDB, of the dead-letter producer and of the file system.
pub data Failure : Type 0 where
  not_delivered : ProducerError → Failure
  store_failed letter_failed move_failed : Failure

-- What a call comes to: nothing, as the batch was seen, a manifest, or an exception.
pub data Processed : Type 0 where
  skipped : Processed
  returned : BatchManifest → Processed
  raised : Failure → Processed

abbrev pub itself : ProducerError → ProducerError
itself e = e

module _ (env : Environment) where
  open env use {codec, now}

  abbrev pub headers_of : TopicSpec → Text → Option ℕ → Option Text → KafkaHeaders
  headers_of spec batch_id seq extracted_at = build_headers codec now record {
    source_system = codes spec.source_system;
    adapter_id = adapter_id;
    adapter_version = adapter_version;
    batch_id = some batch_id;
    record_seq = seq;
    extracted_at = extracted_at;
  }

  -- The loop of `_produce` over `enumerate(batch.details, 1)`.
  unfoldable pub detail_messages : Text → Text → ℕ → List (Dict Text) → List DetailMessage
  detail_messages batch_id cycle_date seq [] = []
  detail_messages batch_id cycle_date seq (rec ∷ recs) =
      record {
        values = insert "REC_ID" (rec_id_for cycle_date seq) rec;
        headers = headers_of custody_positions batch_id (some seq) (some now);
      }
      ∷ detail_messages batch_id cycle_date (suc seq) recs

  abbrev pub messages_of : ParsedBatch → List DetailMessage
  messages_of batch = detail_messages batch.batch_id batch.cycle_date 1 batch.contents.details

  abbrev pub manifest_message : BatchManifest → ManifestMessage
  manifest_message m = record {
    manifest = m;
    headers = headers_of custody_batches m.batch_id none none;
  }

  -- A rejected line, as it goes to the dead-letter queue.
  unfoldable pub failed_line : Reject → FailedRecord
  failed_line r = record {
    dlq_topic = dlq custody_positions;
    source_topic = custody_positions.name;
    error = codes "unparseable line " ++ show r.line_no ++ codes ": " ++ env.error_text r.error;
    stage = "adapter";
    raw_value = some (codec.encode r.raw);
    raw_key = none;
    partition = none;
    offset = none;
  }

  module _ (docs : Documents StateDoc) (kafka : Kafka DetailMessage)
      (control : Kafka ManifestMessage) where
    -- A step that may raise.
    abbrev pub Step : Type 0
    Step = World docs × Option Failure

    abbrev pub and_then : Step → (World docs → Step) → Step
    and_then (w, some e) rest = (w, some e)
    and_then (w, none) rest = rest w

    abbrev pub in_archive : Text → Text → World docs → World docs
    in_archive name content w = record w { archive = moved_to name content env.seconds w.archive }

    abbrev pub in_quarantine : Text → Text → World docs → World docs
    in_quarantine name content w = record w {
      quarantine = moved_to name content env.seconds w.quarantine;
    }

    abbrev pub off_landing : Text → World docs → World docs
    off_landing name w = record w { landing = delete name w.landing }

    -- `_move`, for what writes the target.
    abbrev pub moved : Option Bool → Text → (World docs → World docs) → World docs → Step
    moved none name write w = (off_landing name (write w), none)
    moved (some true) name write w = (write w, some move_failed)
    moved (some false) name write w = (w, some move_failed)

    abbrev pub archived : Text → Text → World docs → Step
    archived name content w = moved env.faults.move name (in_archive name content) w

    abbrev pub quarantined : Text → Text → World docs → Step
    quarantined name content w = moved env.faults.move name (in_quarantine name content) w

    abbrev pub recorded : BatchManifest → World docs → World docs
    recorded m w = record w { store = record_batch docs now m.batch_id (ledger_manifest m) w.store }

    -- `state.record_batch`
    abbrev pub record_manifest : Option Bool → BatchManifest → World docs → Step
    record_manifest none m w = (recorded m w, none)
    record_manifest (some true) m w = (recorded m w, some store_failed)
    record_manifest (some false) m w = (w, some store_failed)

    -- One turn of the loop over the rejects.
    abbrev pub publish_reject : FailedRecord → World docs → World docs
    publish_reject f w = record w {
      letters = w.letters ++ letter codec now f ∷ [];
      store = note docs now f w.store;
    }

    -- The loop, which raises after so many rejects.
    unfoldable pub publish_all : Option (ℕ × Bool) → List Reject → World docs → Step
    publish_all fault [] w = (w, none)
    publish_all none (r ∷ rs) w = publish_all none rs (publish_reject (failed_line r) w)
    publish_all (some (zero, false)) (r ∷ rs) w = (w, some letter_failed)
    publish_all (some (zero, true)) (r ∷ rs) w = (
      record w { letters = w.letters ++ letter codec now (failed_line r) ∷ [] },
      some letter_failed,
    )
    publish_all (some (suc n, queued)) (r ∷ rs) w =
        publish_all (some (n, queued)) rs (publish_reject (failed_line r) w)

    abbrev pub outcome_of : Processed → Step → Processed × World docs
    outcome_of done (w, some e) = (raised e, w)
    outcome_of done (w, none) = (done, w)

    -- `_emit_manifest`: the world with what landed, and the error.
    unfoldable pub emit_manifest : BatchManifest → World docs → World docs × Option ProducerError
    emit_manifest m w =
        let done = session control itself (manifest_message m ∷ []) none in
        (record w { manifests = w.manifests ++ done.landed }, done.error)

    -- The end of `_produce`.
    abbrev pub finish :
        Text → Text → BatchManifest → World docs → Option ProducerError → Processed × World docs
    finish name content m w (some e) = (raised (not_delivered e), w)
    finish name content m w none =
        outcome_of (returned m)
          (and_then (record_manifest env.faults.ledger m w) (archived name content))

    abbrev pub announce :
        Text → Text → ParsedBatch → World docs → Option ProducerError → Processed × World docs
    announce name content batch w (some e) = (raised (not_delivered e), w)
    announce name content batch w none =
        let m = build_manifest batch (length batch.contents.details) now in
        let (after, error) = emit_manifest m w in finish name content m after error

    -- `_produce`
    unfoldable pub produce_batch : Text → Text → ParsedBatch → World docs → Processed × World docs
    produce_batch name content batch w =
        let done = session kafka itself (messages_of batch) none in
        announce name content batch (record w { details = w.details ++ done.landed }) done.error

    -- The end of `_quarantine`.
    abbrev pub set_aside :
        Text
        → Text
        → ParsedBatch
        → BatchManifest
        → World docs
        → Option ProducerError
        → Processed × World docs
    set_aside name content batch m w (some e) = (raised (not_delivered e), w)
    set_aside name content batch m w none = outcome_of (returned m) (
        and_then (record_manifest env.faults.ledger m w) λ recorded.
          and_then (publish_all env.faults.letters (take 100 batch.contents.rejects) recorded)
            (quarantined name content))

    -- `_quarantine`
    unfoldable pub quarantine_batch :
        Text → Text → ParsedBatch → World docs → Processed × World docs
    quarantine_batch name content batch w =
        let m = build_manifest batch 0 now in
        let (after, error) = emit_manifest m w in set_aside name content batch m after error

    -- `if not batch.ok`
    abbrev pub verified :
        Text → Text → ParsedBatch → Option ControlError → World docs → Processed × World docs
    verified name content batch none w = produce_batch name content batch w
    verified name content batch (some e) w = quarantine_batch name content batch w

    abbrev pub batch_of : Text → Text → ParsedBatch
    batch_of name content =
        parse_custody_file (batch_id_for env.sha256_hex name content) name
          (lines (universal_newlines content))

    -- The rest, when the ledger has been asked.
    unfoldable pub process_found : Text → Text → World docs → Processed × World docs
    process_found name content w =
        if batch_seen docs (batch_id_for env.sha256_hex name content) w.store
        then outcome_of skipped (archived name content w)
        else verified name content (batch_of name content) (batch_of name content).control_error w

    unfoldable pub process_file : Text → Text → World docs → Processed × World docs
    process_file name content w =
        if env.faults.lookup then (raised store_failed, w) else process_found name content w

    -- What `run_once` has done: the manifests, or the exception, and the world.
    pub record Processing : Type 0 where
      pub manifests : List BatchManifest
      pub error : Option Failure
      pub world : World docs

    -- The rest of the loop of `run_once`, which is over the names that were discovered.
    unfoldable pub process_all : List Text → List BatchManifest → World docs → Processing
    process_all [] done w = record { manifests = done; error = none; world = w }
    process_all (name ∷ names) done w = elim (get name w.landing) [
      | none ↦ process_all names done w
      | some content ↦
          let (outcome, after) = process_file name content w in
          elim outcome [
            | skipped ↦ process_all names done after
            | returned m ↦ process_all names (done ++ m ∷ []) after
            | raised e ↦ record { manifests = done; error = some e; world = after }
          ]
    ]

    unfoldable pub run_once : (Text → Bool) → World docs → Processing
    run_once matches w = process_all (discover matches w.landing) [] w
