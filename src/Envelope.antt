-- ===== src/Envelope.antt =====
-- src/ods_ingest/envelope.py: the canonical envelope in Kafka headers. The character encoding (UTF-8)
-- is the interface `Codec`, and the clock is the argument `now`.
pub mod RoundTrip
mod Tests
use mathlib.Core.Option
use bank_ods_unified_api.Prelude.{
  ℕ, ◌≡◌, String, Bool, Option, none, some, List, [], ◌∷◌, ◌++◌, if◌then◌else◌,
}
use bank_ods_unified_api.Prelude.Text.{Text}
use bank_ods_unified_api.Prelude.Dict.{Dict, lookup, insert}
use bank_ods_unified_api.Prelude.Strip.{is_empty}
use bank_ods_unified_api.Prelude.Int.{ℤ}
use bank_ods_unified_api.Prelude.Numeral.{show, parse_int}

abbrev pub Bytes : Type 0
Bytes = List ℕ

-- `str.encode` and `bytes.decode`, where `none` is the UnicodeDecodeError.
pub record Codec : Type 0 where
  pub encode : Text → Bytes
  pub decode : Bytes → Option Text
  pub decode-encode : (s : Text) → decode (encode s) ≡ some s

-- What a Kafka client may deliver as the value of a header.
pub data HeaderValue : Type 0 where
  text : Text → HeaderValue
  bytes : Bytes → HeaderValue
  missing : HeaderValue

abbrev pub KafkaHeaders : Type 0
KafkaHeaders = List (String × HeaderValue)

abbrev pub h_source_system : String
h_source_system = "sourceSystem"

abbrev pub h_adapter_id : String
h_adapter_id = "adapterId"

abbrev pub h_adapter_version : String
h_adapter_version = "adapterVersion"

abbrev pub h_batch_id : String
h_batch_id = "batchId"

abbrev pub h_record_seq : String
h_record_seq = "recordSeq"

abbrev pub h_extracted_at : String
h_extracted_at = "extractedAt"

-- The keyword arguments of `build_headers`.
pub record Envelope : Type 0 where
  pub source_system : Text
  pub adapter_id : Text
  pub adapter_version : Text
  pub batch_id : Option Text
  pub record_seq : Option ℕ
  pub extracted_at : Option Text

-- `extracted_at or utc_now_iso()`: an empty text counts as absent.
abbrev pub or_now : Text → Option Text → Text
or_now now none = now
or_now now (some t) = if is_empty t then now else t

abbrev pub optional_header : String → Option Bytes → KafkaHeaders
optional_header name none = []
optional_header name (some value) = (name, bytes value) ∷ []

module _ (codec : Codec) where
  unfoldable pub build_headers : Text → Envelope → KafkaHeaders
  build_headers now e =
      (h_source_system, bytes (codec.encode e.source_system))
      ∷ (h_adapter_id, bytes (codec.encode e.adapter_id))
      ∷ (h_adapter_version, bytes (codec.encode e.adapter_version))
      ∷ (h_extracted_at, bytes (codec.encode (or_now now e.extracted_at)))
      ∷ (optional_header h_batch_id (Option.map codec.encode e.batch_id)
          ++ optional_header h_record_seq (Option.map (λ n. codec.encode (show n)) e.record_seq))

  -- What one header decodes to, if it is to be kept.
  unfoldable pub decoded : HeaderValue → Option Text
  decoded missing = none
  decoded (text t) = some t
  decoded (bytes b) = codec.decode b

  -- The loop over the pairs, with the dict that it fills.
  unfoldable pub decode_onto : Dict Text → KafkaHeaders → Dict Text
  decode_onto out [] = out
  decode_onto out ((key, value) ∷ rest) =
      decode_onto (elim (decoded value) [ some t ↦ insert key t out | none ↦ out ]) rest

  -- `None` and an empty collection both decode to no headers; a dict is its items.
  unfoldable pub decode_headers : Option KafkaHeaders → Dict Text
  decode_headers none = []
  decode_headers (some pairs) = decode_onto [] pairs

unfoldable pub record_seq_of : Dict Text → Option ℤ
record_seq_of headers = elim (lookup h_record_seq headers) [
  | none ↦ none
  | some raw ↦ parse_int raw
]
