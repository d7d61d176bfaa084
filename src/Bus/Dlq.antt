-- ===== src/Bus/Dlq.antt =====
-- src/ods_ingest/bus/dlq.py: a dead letter, as it is handed to the producer and recorded in the
-- operational state. The clock is the argument `now`.
use bank_ods_unified_api.Prelude.{
  ◌≡◌, refl, suc, String, Option, none, some, [], ◌∷◌, ◌++◌, take, Option-cases, inl, inr,
}
use bank_ods_unified_api.Prelude.Text.{Text, codes, compare_text}
use bank_ods_unified_api.Prelude.Int.{ℤ, pos, negsuc}
use bank_ods_unified_api.Prelude.Numeral.{show}
use bank_ods_unified_api.Envelope.{Bytes, Codec, KafkaHeaders, bytes}
use bank_ods_unified_api.State.{Documents, StateDoc, record_dlq}
use bank_ods_unified_api.Topics.{dlq, dlq_prefix, by_name, find_topic}

abbrev pub h_error : String
h_error = "error"

abbrev pub h_error_at : String
h_error_at = "errorAt"

abbrev pub h_source_topic : String
h_source_topic = "sourceTopic"

abbrev pub h_source_partition : String
h_source_partition = "sourcePartition"

abbrev pub h_source_offset : String
h_source_offset = "sourceOffset"

abbrev pub h_stage : String
h_stage = "stage"

-- The arguments of `publish`, without the sample.
pub record FailedRecord : Type 0 where
  pub dlq_topic : Text
  pub source_topic : Text
  pub error : Text
  pub stage : String
  pub raw_value : Option Bytes
  pub raw_key : Option Bytes
  pub partition : Option ℤ
  pub offset : Option ℤ

-- What the producer is given.
pub record DeadLetter : Type 0 where
  pub topic : Text
  pub key : Option Bytes
  pub value : Option Bytes
  pub headers : KafkaHeaders

abbrev pub show_ℤ : ℤ → Text
show_ℤ (pos n) = show n
show_ℤ (negsuc n) = codes "-" ++ show (suc n)

module _ (codec : Codec) where
  abbrev pub number_header : String → Option ℤ → KafkaHeaders
  number_header name none = []
  number_header name (some n) = (name, bytes (codec.encode (show_ℤ n))) ∷ []

  unfoldable pub letter : Text → FailedRecord → DeadLetter
  letter now f = record {
    topic = f.dlq_topic;
    key = f.raw_key;
    value = f.raw_value;
    headers =
        (h_error, bytes (codec.encode (take 1000 f.error)))
        ∷ (h_error_at, bytes (codec.encode now))
        ∷ (h_source_topic, bytes (codec.encode f.source_topic))
        ∷ (h_stage, bytes (codec.encode (codes f.stage)))
        ∷ (number_header h_source_partition f.partition ++ number_header h_source_offset f.offset);
  }

-- The record of the failure in the operational state.
unfoldable pub note : (docs : Documents StateDoc) → Text → FailedRecord → docs.Store → docs.Store
note docs now f =
    record_dlq docs now f.source_topic (take 500 f.error)
      record { stage = f.stage; partition = f.partition; offset = f.offset; at = now }

-- `_dlq_topic_for` of the consumer.
unfoldable pub dlq_topic_for : Text → Text
dlq_topic_for topic = elim (by_name topic) [ some spec ↦ dlq spec | none ↦ dlq_prefix ++ topic ]

by_name-dlq_prefix : (name : Text) → by_name (dlq_prefix ++ name) ≡ none
unfolding by_name find_topic compare_text
by_name-dlq_prefix name = refl

-- A dead letter never lands on a topic of the table, which a consumer reads.
pub by_name-dlq_topic_for : (topic : Text) → by_name (dlq_topic_for topic) ≡ none
unfolding dlq_topic_for dlq
by_name-dlq_topic_for topic = elim (Option-cases (by_name topic)) [
  | inl e ↦ rw (e, dlq_topic_for) (by_name-dlq_prefix topic)
  | inr (spec, e) ↦ rw (e, dlq_topic_for) (by_name-dlq_prefix _)
]
