-- ===== src/Services/Ops/Status.antt =====
-- src/bank_ods/services/ops.py: `get_ingestion_status` and `get_dlq_summary`, on the
-- operational state. An instant is a number of microseconds, `micros` gives that of a time that was
-- stored, and ages are compared exactly.
use bank_ods_unified_api.Prelude.{
  ℕ, ◌+◌, ◌*◌, String, Option, none, some, List, [], ◌∷◌, if◌then◌else◌, str_eq, leb,
}
use bank_ods_unified_api.Prelude.Text.{Text, codes}
use bank_ods_unified_api.Prelude.Int.{ℤ, pos, ◌-ℤ◌, ltb_ℤ}
use bank_ods_unified_api.State.{Documents, StateDoc, Sample, sink_id, keep_last}

-- `_FEED_FRESHNESS_HOURS`
abbrev pub feed_freshness_hours : List (Text × ℕ)
feed_freshness_hours =
    (codes "ods.raw.custody.positions", 30)
    ∷ (codes "ods.raw.custody.batches", 30)
    ∷ (codes "ods.raw.cash.movements", 8)
    ∷ (codes "ods.raw.vendorsec.securities", 26)
    ∷ (codes "ods.raw.crm.clients", 26)
    ∷ (codes "ods.raw.crm.accounts", 26)
    ∷ []

abbrev pub micros_per_hour : ℕ
micros_per_hour = 3_600_000_000

pub data FeedStatus : Type 0 where
  never_landed stale current : FeedStatus

pub record Feed : Type 0 where
  pub topic : Text
  pub collection : Option String
  pub records_landed : ℕ
  pub last_landed_at : Option Text
  pub age : Option ℤ
  pub max_age_hours : ℕ
  pub status : FeedStatus

abbrev pub status_of_age : ℕ → Option ℤ → FeedStatus
status_of_age max_age none = never_landed
status_of_age max_age (some age) =
    if ltb_ℤ (pos (max_age * micros_per_hour)) age then stale else current

-- The documents with the kind "sink", by their identifier.
abbrev pub of_kind : String → Option StateDoc → Option StateDoc
of_kind kind none = none
of_kind kind (some d) = if str_eq d.kind kind then some d else none

module _ (micros : Text → ℤ) (now : ℤ) where
  -- `_hours_since`, in microseconds.
  abbrev pub age_since : Option Text → Option ℤ
  age_since none = none
  age_since (some t) = some (now -ℤ micros t)

  abbrev pub feed_of : Text → ℕ → Option StateDoc → Feed
  feed_of topic max_age none = record {
    topic = topic;
    collection = none;
    records_landed = 0;
    last_landed_at = none;
    age = none;
    max_age_hours = max_age;
    status = never_landed;
  }
  feed_of topic max_age (some d) = record {
    topic = topic;
    collection = some d.collection;
    records_landed = d.records_landed;
    last_landed_at = d.last_landed_at;
    age = age_since d.last_landed_at;
    max_age_hours = max_age;
    status = status_of_age max_age (age_since d.last_landed_at);
  }

  module _ (docs : Documents StateDoc) where
    -- The loop over the declared feeds.
    unfoldable pub feeds_of : List (Text × ℕ) → docs.Store → List Feed
    feeds_of [] s = []
    feeds_of ((topic, max_age) ∷ feeds) s =
        feed_of topic max_age (of_kind "sink" (docs.find (sink_id topic) s)) ∷ feeds_of feeds s

    unfoldable pub get_ingestion_status : docs.Store → List Feed
    get_ingestion_status s = feeds_of feed_freshness_hours s

pub record DlqEntry : Type 0 where
  pub topic : Text
  pub count : ℕ
  pub last_error : Option Text
  pub last_error_at : Option Text
  pub samples : List Sample

abbrev pub dlq_entry : StateDoc → DlqEntry
dlq_entry d = record {
  topic = d.source;
  count = d.count;
  last_error = d.last_error;
  last_error_at = d.last_error_at;
  samples = keep_last 3 d.samples;
}

-- A document at its place by the count, the highest first.
unfoldable pub insert_by_count : StateDoc → List StateDoc → List StateDoc
insert_by_count d [] = d ∷ []
insert_by_count d (e ∷ es) =
    let rest = insert_by_count d es in if leb e.count d.count then d ∷ e ∷ es else e ∷ rest

unfoldable pub sort_by_count : List StateDoc → List StateDoc
sort_by_count [] = []
sort_by_count (d ∷ ds) = insert_by_count d (sort_by_count ds)

unfoldable pub summarize : List StateDoc → List DlqEntry × ℕ
summarize [] = ([], 0)
summarize (d ∷ ds) = let (entries, total) = summarize ds in (dlq_entry d ∷ entries, d.count + total)

-- On the documents with the kind "dlq".
unfoldable pub get_dlq_summary : List StateDoc → List DlqEntry × ℕ
get_dlq_summary ds = summarize (sort_by_count ds)
