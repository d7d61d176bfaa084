-- ===== src/Services/Cursor/RoundTrip.antt =====
-- A cursor is read back for the query that it was made for, and only for that query.
use bank_ods_unified_api.Prelude.{
  ℕ, ◌≡◌, ◌≢◌, refl, ap, ◌∙◌, true, false, Option, some, List, [], ◌∷◌, length, ◌==◌, arith, suc,
}
use bank_ods_unified_api.Prelude.Text.{Text, eq_text, eq_text_self, eq_text_iff, compare_text}
use bank_ods_unified_api.Services.Cursor.{
  Bson, Tokens, SortSpec, Scalar, Value, object_id, date_time, decimal, scalar, other, Result, ok,
  raises, not_of_this_query, bind, payload, tag, untag, tag_all, untag_all, encode_cursor,
  decode_cursor, decode_payload,
}

bind-ok :
    {A B : Type 0} (r : Result A) (f : A → Result B) (b : B)
    → bind r f ≡ ok b
    → (a : A) × (r ≡ ok a) × (f a ≡ ok b)
bind-ok (ok a) f b h = (a, refl, h)
bind-ok (raises e) f b h = cc

ok_injective : {A : Type 0} {a b : A} → ok a ≡ ok b → a ≡ b
ok_injective h = cc

eq_self : (a b : ℕ) → a ≡ b → (a == b) ≡ true
eq_self a b h = ground arith

ne_eq_text : (a b : Text) → a ≢ b → eq_text a b ≡ false
ne_eq_text a b h = ground (arith, eq_text_iff a b)

module _ (bson : Bson) where
  untag-tag : (v : Value bson) (t : Text × Scalar) → tag bson v ≡ ok t → untag bson (some t) ≡ ok v
  unfolding tag untag compare_text
  untag-tag (object_id x) t h = rw⁻¹ (ok_injective h) (rw (bson.parse_id-show_id x) refl)
  untag-tag (date_time x) t h = rw⁻¹ (ok_injective h) (rw (bson.fromisoformat-isoformat x) refl)
  untag-tag (decimal x) t h = rw⁻¹ (ok_injective h) (rw (bson.parse_decimal-show_decimal x) refl)
  untag-tag (scalar x) t h = rw⁻¹ (ok_injective h) refl
  untag-tag other t h = cc

  untag_all-tag_all :
      (vs : List (Value bson)) (ts : List (Option (Text × Scalar)))
      → tag_all bson vs ≡ ok ts
      → (untag_all bson ts ≡ ok vs) × (length ts ≡ length vs)
  unfolding tag_all untag_all
  untag_all-tag_all [] ts h = rw⁻¹ (ok_injective h) (refl, refl)
  untag_all-tag_all (v ∷ vs) ts h =
      let (t, e, k) = bind-ok (tag bson v) _ ts h in
      let (us, e', k') = bind-ok (tag_all bson vs) _ ts k in
      let (i, n) = untag_all-tag_all vs us e' in
      rw⁻¹ (ok_injective k') (rw (untag-tag v t e, i) (refl, ap suc n))

  module _ (tokens : Tokens) where
    -- A token decodes to the values that it was made from, for the same collection and sort.
    pub decode_cursor-encode_cursor :
        (collection : Text) (token : tokens.Token) (sort : SortSpec) (values : List (Value bson))
        → encode_cursor bson tokens collection sort values ≡ ok token
        → length values ≡ length sort
        → decode_cursor bson tokens token collection sort ≡ ok values
    unfolding encode_cursor decode_cursor decode_payload
    decode_cursor-encode_cursor collection token sort values h n =
        let (keys, e, k) = bind-ok (tag_all bson values) _ token h in
        let (i, m) = untag_all-tag_all values keys e in
        rw⁻¹ (ok_injective k) (
          rw
            (
              tokens.from_token-to_token (payload bson tokens collection sort keys),
              eq_text_self (tokens.fingerprint collection sort),
              eq_self _ _ (m ∙ n),
            )
            i)

    -- A token for one query is refused for another, if the fingerprints of the two differ.
    pub decode_cursor-other_query :
        (collection : Text) (token : tokens.Token) (sort : SortSpec) (values : List (Value bson))
        (other_collection : Text) (other_sort : SortSpec)
        → encode_cursor bson tokens collection sort values ≡ ok token
        → tokens.fingerprint collection sort ≢ tokens.fingerprint other_collection other_sort
        → decode_cursor bson tokens token other_collection other_sort ≡ raises not_of_this_query
    unfolding encode_cursor decode_cursor decode_payload
    decode_cursor-other_query collection token sort values c s h differs =
        let (keys, e, k) = bind-ok (tag_all bson values) _ token h in
        rw⁻¹ (ok_injective k) (
          rw
            (
              tokens.from_token-to_token (payload bson tokens collection sort keys),
              ne_eq_text (tokens.fingerprint collection sort) (tokens.fingerprint c s) differs,
            )
            refl)
