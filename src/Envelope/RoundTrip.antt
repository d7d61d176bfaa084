-- ===== src/Envelope/RoundTrip.antt =====
-- What a consumer reads back from the headers that an adapter stamped.
use mathlib.Core.Option
use bank_ods_unified_api.Prelude.{ℕ, ◌≡◌, refl, ◌++◌, String, Option, none, some, [], ◌∷◌}
use bank_ods_unified_api.Prelude.Text.{Text}
use bank_ods_unified_api.Prelude.Dict.{Dict, lookup, insert}
use bank_ods_unified_api.Prelude.Int.{pos}
use bank_ods_unified_api.Prelude.Numeral.{parse_int-show}
use bank_ods_unified_api.Envelope.{
  Codec, Envelope, bytes, KafkaHeaders, HeaderValue, or_now, build_headers, decode_headers,
  record_seq_of, decoded, decode_onto, h_source_system, h_adapter_id, h_adapter_version, h_batch_id,
  h_extracted_at,
}

module _ (codec : Codec) (now : Text) where
  abbrev pub Reads : Envelope → Dict Text → Type 0
  Reads e headers =
      (lookup h_source_system headers ≡ some e.source_system)
      × (lookup h_adapter_id headers ≡ some e.adapter_id)
      × (lookup h_adapter_version headers ≡ some e.adapter_version)
      × (lookup h_extracted_at headers ≡ some (or_now now e.extracted_at))
      × (lookup h_batch_id headers ≡ e.batch_id)
      × (record_seq_of headers ≡ Option.map pos e.record_seq)

  decode_onto-bytes :
      (out : Dict Text) (name : String) (t : Text) (rest : KafkaHeaders)
      → decode_onto codec out ((name, bytes (codec.encode t)) ∷ rest)
        ≡ decode_onto codec (insert name t out) rest
  unfolding decode_onto decoded
  decode_onto-bytes out name t rest = rw (codec.decode-encode t, decode_onto)

  decode_onto-nil : (out : Dict Text) → decode_onto codec out [] ≡ out
  unfolding decode_onto
  decode_onto-nil out = refl

  by_options :
      (source adapter version : Text) (at : Option Text) (batch : Option Text) (seq : Option ℕ)
      → let e : Envelope = record {
        source_system = source;
        adapter_id = adapter;
        adapter_version = version;
        extracted_at = at;
        batch_id = batch;
        record_seq = seq;
      } in
        Reads e (decode_headers codec (some (build_headers codec now e)))
  unfolding build_headers decode_headers lookup insert record_seq_of
  by_options source adapter version at none none =
      simp (decode_onto-bytes, decode_onto-nil) (refl, refl, refl, refl, refl, refl)
  by_options source adapter version at none (some n) =
      simp (decode_onto-bytes, decode_onto-nil) (refl, refl, refl, refl, refl, parse_int-show n)
  by_options source adapter version at (some b) none =
      simp (decode_onto-bytes, decode_onto-nil) (refl, refl, refl, refl, refl, refl)
  by_options source adapter version at (some b) (some n) =
      simp (decode_onto-bytes, decode_onto-nil) (refl, refl, refl, refl, refl, parse_int-show n)

  -- Every field that was stamped is read back as it was, an absent or empty extraction time as
  -- the time of the call; batch id and sequence number are read back exactly if they were given.
  pub decode_headers-build_headers :
      (e : Envelope) → Reads e (decode_headers codec (some (build_headers codec now e)))
  decode_headers-build_headers e =
      by_options e.source_system e.adapter_id e.adapter_version e.extracted_at e.batch_id
        e.record_seq

module _ (codec : Codec) where
  decode_onto-skip :
      (before after : KafkaHeaders) (name : String) (value : HeaderValue) (out : Dict Text)
      → decoded codec value ≡ none
      → decode_onto codec out (before ++ (name, value) ∷ after)
        ≡ decode_onto codec out (before ++ after)
  unfolding decode_onto
  decode_onto-skip [] after name value out h = rw (h, decode_onto)
  decode_onto-skip ((k, v) ∷ before) after name value out h =
      decode_onto-skip before after name value _ h

  -- A header that carries nothing readable, a null or undecodable bytes, does not change what the
  -- headers decode to, wherever it stands.
  pub decode_headers-skip :
      (before after : KafkaHeaders) (name : String) (value : HeaderValue)
      → decoded codec value ≡ none
      → decode_headers codec (some (before ++ (name, value) ∷ after))
        ≡ decode_headers codec (some (before ++ after))
  unfolding decode_headers
  decode_headers-skip before after name value h = decode_onto-skip before after name value [] h
