-- ===== src/State/Tests.antt =====
-- Instances of the laws of the operational state.
use bank_ods_unified_api.Prelude.{
  ◌+◌, ◌≤◌, ◌≡◌, some, List, [], ◌∷◌, ◌++◌, map, length, arith, ◌||◌,
}
use bank_ods_unified_api.Prelude.Text.{Text, codes, eq_text}
use bank_ods_unified_api.Prelude.Int.{pos}
use bank_ods_unified_api.State.{
  StateDoc, Sample, Manifest, max_dlq_samples, keep_last, get_watermark, set_watermark,
  reset_watermark, batch_seen, record_batch, dlq_status, record_sink_progress, record_dlq,
}
use bank_ods_unified_api.State.Memory.{memory}
use bank_ods_unified_api.State.Laws.{
  record_failures, samples_at, failures_at, record_failures-dlq_status, batch_seen-record_batch,
  batch_seen-other_kinds,
}

abbrev sample : Sample
sample = record {
  stage = "sink";
  partition = some (pos 0);
  offset = some (pos 7);
  at = codes "2026-01-30";
}

abbrev failures : List (Text × Sample)
failures = (codes "bad", sample) ∷ (codes "worse", sample) ∷ []

record_failures-dlq_status_example :
    (failures_at
        (memory StateDoc)
        (codes "t")
        (record_failures (memory StateDoc) [] (codes "t") failures [])
      ≡ 0 + 2)
    × (samples_at
          (memory StateDoc)
          (codes "t")
          (record_failures (memory StateDoc) [] (codes "t") failures [])
        ≡ keep_last max_dlq_samples ([] ++ map (λ f. f.1) failures))
    × (length (
          samples_at
            (memory StateDoc)
            (codes "t")
            (record_failures (memory StateDoc) [] (codes "t") failures []))
        ≤ max_dlq_samples)
unfolding dlq_status
record_failures-dlq_status_example =
    record_failures-dlq_status (memory StateDoc) [] (codes "t") failures [] (omega arith)

abbrev manifest : Manifest
manifest = record {
  batch_id = codes "b";
  file_name = codes "f";
  topic = "t";
  record_count = 1;
  declared_count = 1;
  status = "COMPLETE";
  extracted_at = [];
}

seen_after_record :
    batch_seen
      (memory StateDoc)
      (codes "c")
      (record_batch (memory StateDoc) [] (codes "b") manifest [])
    ≡ (eq_text (codes "b") (codes "c") || batch_seen (memory StateDoc) (codes "c") [])
seen_after_record = batch_seen-record_batch (memory StateDoc) [] [] (codes "b") (codes "c") manifest

batch_seen-other_kinds_example :
    let docs = memory StateDoc in
    (get_watermark docs (codes "a") (record_batch docs [] (codes "b") manifest [])
      ≡ get_watermark docs (codes "a") [])
    × (get_watermark docs (codes "a") (record_sink_progress docs [] (codes "b") 2 "c" [])
        ≡ get_watermark docs (codes "a") [])
    × (get_watermark docs (codes "a") (record_dlq docs [] (codes "b") (codes "v") sample [])
        ≡ get_watermark docs (codes "a") [])
    × (batch_seen docs (codes "a") (set_watermark docs [] (codes "b") (codes "v") 2 [])
        ≡ batch_seen docs (codes "a") [])
    × (batch_seen docs (codes "a") (reset_watermark docs (codes "b") [])
        ≡ batch_seen docs (codes "a") [])
    × (batch_seen docs (codes "a") (record_sink_progress docs [] (codes "b") 2 "c" [])
        ≡ batch_seen docs (codes "a") [])
    × (batch_seen docs (codes "a") (record_dlq docs [] (codes "b") (codes "v") sample [])
        ≡ batch_seen docs (codes "a") [])
batch_seen-other_kinds_example =
    batch_seen-other_kinds (memory StateDoc) [] [] (codes "a") (codes "b") (codes "v") 2 manifest
      sample "c"
