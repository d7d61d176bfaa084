-- ===== src/State.antt =====
-- src/ods_ingest/state.py: the `ingest_state` collection. MongoDB is the interface `Documents`: a
-- collection as far as this module uses it, one document for each `_id`. Clock readings are
-- arguments.
pub mod Laws
pub mod Memory
mod Tests
use mathlib.Core.Option
use bank_ods_unified_api.Prelude.{
  ℕ, ◌+◌, ◌-◌, ◌≡◌, String, Bool, true, false, Option, none, some, List, [], ◌∷◌, ◌++◌, length,
  drop, if◌then◌else◌,
}
use bank_ods_unified_api.Prelude.Text.{Text, codes, eq_text}
use bank_ods_unified_api.Prelude.Int.{ℤ}

-- `update_one({_id: k}, update, upsert=True)` is `upsert k update`: the update of the document that
-- is there, or of a new one. `delete_one({_id: k})` is `delete k`.
pub record Documents (D : Type 0) : Type 1 where
  pub Store : Type 0
  pub find : Text → Store → Option D
  pub upsert : Text → (Option D → D) → Store → Store
  pub delete : Text → Store → Store
  pub find-upsert :
      (k j : Text) (update : Option D → D) (s : Store)
      → find j (upsert k update s) ≡ (if eq_text k j then some (update (find k s)) else find j s)
  pub find-delete :
      (k j : Text) (s : Store) → find j (delete k s) ≡ (if eq_text k j then none else find j s)

-- A sample of a dead-lettered record, without the copy of the record itself.
pub record Sample : Type 0 where
  pub stage : String
  pub partition : Option ℤ
  pub offset : Option ℤ
  pub at : Text

-- What a batch leaves in the ledger.
pub record Manifest : Type 0 where
  pub batch_id : Text
  pub file_name : Text
  pub topic : String
  pub record_count : ℕ
  pub declared_count : ℕ
  pub status : String
  pub extracted_at : Text

-- The documents of all kinds; a counter that is absent counts as zero, as `$inc` takes it.
pub record StateDoc : Type 0 where
  pub kind : String
  pub source : Text
  pub value : Option Text
  pub records_total : ℕ
  pub polls : ℕ
  pub manifest : Option Manifest
  pub collection : String
  pub last_landed_at : Option Text
  pub records_landed : ℕ
  pub last_error : Option Text
  pub last_error_at : Option Text
  pub count : ℕ
  pub samples : List Sample
  pub updated_at : Option Text

abbrev pub new_doc : StateDoc
new_doc = record {
  kind = "";
  source = [];
  value = none;
  records_total = 0;
  polls = 0;
  manifest = none;
  collection = "";
  last_landed_at = none;
  records_landed = 0;
  last_error = none;
  last_error_at = none;
  count = 0;
  samples = [];
  updated_at = none;
}

abbrev pub or_new : Option StateDoc → StateDoc
or_new none = new_doc
or_new (some d) = d

abbrev pub max_dlq_samples : ℕ
max_dlq_samples = 10

-- `$push` with `$slice: -n` keeps the last n.
abbrev pub keep_last {ℓ} : {A : Type ℓ} → ℕ → List A → List A
keep_last n xs = drop (length xs - n) xs

abbrev pub watermark_id : Text → Text
watermark_id source = codes "watermark:" ++ source

abbrev pub batch_key : Text → Text
batch_key batch_id = codes "batch:" ++ batch_id

abbrev pub sink_id : Text → Text
sink_id topic = codes "sink:" ++ topic

abbrev pub dlq_id : Text → Text
dlq_id topic = codes "dlq:" ++ topic

abbrev pub watermark_of : Option StateDoc → Option Text
watermark_of none = none
watermark_of (some d) = d.value

abbrev pub is_there : Option StateDoc → Bool
is_there none = false
is_there (some d) = true

-- The update of `record_dlq`.
abbrev pub failure : Text → Text → Text → Sample → Option StateDoc → StateDoc
failure now topic error sample old =
    let d = or_new old in
    record d {
      kind = "dlq";
      source = topic;
      last_error = some error;
      last_error_at = some now;
      count = d.count + 1;
      samples = keep_last max_dlq_samples (d.samples ++ sample ∷ []);
    }

module _ (docs : Documents StateDoc) where
  open docs use {Store, find, upsert, delete}

  -- `doc.get("value") if doc else None`
  unfoldable pub get_watermark : Text → Store → Option Text
  get_watermark source s = watermark_of (find (watermark_id source) s)

  unfoldable pub set_watermark : Text → Text → Text → ℕ → Store → Store
  set_watermark now source value records = upsert (watermark_id source) λ old.
      let d = or_new old in
      record d {
        kind = "watermark";
        source = source;
        value = some value;
        updated_at = some now;
        records_total = d.records_total + records;
        polls = d.polls + 1;
      }

  unfoldable pub reset_watermark : Text → Store → Store
  reset_watermark source = delete (watermark_id source)

  unfoldable pub batch_seen : Text → Store → Bool
  batch_seen batch_id s = is_there (find (batch_key batch_id) s)

  unfoldable pub record_batch : Text → Text → Manifest → Store → Store
  record_batch now batch_id manifest = upsert (batch_key batch_id) λ old.
      let d = or_new old in
      record d {
        kind = "batch";
        source = batch_id;
        manifest = some manifest;
        updated_at = some now;
      }

  unfoldable pub get_batch : Text → Store → Option StateDoc
  get_batch batch_id = find (batch_key batch_id)

  unfoldable pub record_sink_progress : Text → Text → ℕ → String → Store → Store
  record_sink_progress now topic written collection = upsert (sink_id topic) λ old.
      let d = or_new old in
      record d {
        kind = "sink";
        source = topic;
        collection = collection;
        last_landed_at = some now;
        records_landed = d.records_landed + written;
      }

  unfoldable pub sink_status : Text → Store → Option StateDoc
  sink_status topic = find (sink_id topic)

  unfoldable pub record_dlq : Text → Text → Text → Sample → Store → Store
  record_dlq now topic error sample = upsert (dlq_id topic) (failure now topic error sample)

  unfoldable pub dlq_status : Text → Store → Option StateDoc
  dlq_status topic = find (dlq_id topic)
