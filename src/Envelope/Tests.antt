-- ===== src/Envelope/Tests.antt =====
-- Instances of the theorems on the envelope.
use bank_ods_unified_api.Prelude.{refl, none, some, [], ◌∷◌}
use bank_ods_unified_api.Prelude.Text.{codes}
use bank_ods_unified_api.Envelope.{
  Codec, Envelope, KafkaHeaders, decode_headers, build_headers, text,
}
use bank_ods_unified_api.Envelope.RoundTrip.{Reads, decode_headers-build_headers}

abbrev codec : Codec
codec = record { encode = λ s. s; decode = λ b. some b; decode-encode = λ s. refl }

abbrev stamped : Envelope
stamped = record {
  source_system = codes "CRM_PG";
  adapter_id = codes "file-adapter";
  adapter_version = codes "1.0.0";
  batch_id = none;
  record_seq = some 12;
  extracted_at = some [];
}

decode_headers-build_headers_example :
    Reads codec
      (codes "now")
      stamped
      (decode_headers codec (some (build_headers codec (codes "now") stamped)))
decode_headers-build_headers_example = decode_headers-build_headers codec (codes "now") stamped

abbrev rest : KafkaHeaders
rest = ("b", text (codes "y")) ∷ []
