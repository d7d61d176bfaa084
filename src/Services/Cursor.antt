-- ===== src/Services/Cursor.antt =====
-- src/bank_ods/services/pagination.py: the page size, and the cursor as a token. BSON's own types, JSON
-- with base64, and SHA-256 are interfaces.
pub mod RoundTrip
use mathlib.Core.Option
use bank_ods_unified_api.Prelude.{
  ℕ, min, max, ◌≤◌, ◌≡◌, refl, ap, ◌∙◌, String, Bool, true, false, not, ◌||◌, Option, none, some,
  List, [], ◌∷◌, length, ◌==◌, ==_iff, if◌then◌else◌, arith, str_eq, inl, inr, Option-cases, ◌⊎◌,
  ◌≢◌,
}
use bank_ods_unified_api.Prelude.Text.{Text, codes, eq_text, eq_text_self, eq_text_iff}
use bank_ods_unified_api.Prelude.Int.{ℤ}

abbrev pub default_limit : ℕ
default_limit = 50

abbrev pub max_limit : ℕ
max_limit = 200

abbrev pub cursor_version : ℕ
cursor_version = 1

unfoldable pub clamp_limit : ℕ → ℕ
clamp_limit limit = min (max 1 limit) max_limit

pub clamp_limit-bounds : (limit : ℕ) → (1 ≤ clamp_limit limit) × (clamp_limit limit ≤ max_limit)
unfolding clamp_limit
clamp_limit-bounds limit = ground arith

-- `1 | -1`
pub data Direction : Type 0 where
  ascending descending : Direction

abbrev pub SortSpec : Type 0
SortSpec = List (String × Direction)

-- ObjectId, datetime and Decimal128, each with its text form.
pub record Bson : Type 1 where
  pub ObjectId : Type 0
  pub DateTime : Type 0
  pub Decimal128 : Type 0
  pub show_id : ObjectId → Text
  pub parse_id : Text → Option ObjectId
  pub parse_id-show_id : (x : ObjectId) → parse_id (show_id x) ≡ some x
  pub isoformat : DateTime → Text
  pub fromisoformat : Text → Option DateTime
  pub fromisoformat-isoformat : (x : DateTime) → fromisoformat (isoformat x) ≡ some x
  pub show_decimal : Decimal128 → Text
  pub parse_decimal : Text → Option Decimal128
  pub parse_decimal-show_decimal : (x : Decimal128) → parse_decimal (show_decimal x) ≡ some x

-- What JSON can hold beside lists and objects; a float is its text.
pub data Scalar : Type 0 where
  string : Text → Scalar
  integer : ℤ → Scalar
  real : Text → Scalar
  boolean : Bool → Scalar
  null : Scalar

pub data CursorError : Type 0 where
  -- `InvalidCursorError`
  malformed unsupported_version not_of_this_query : CursorError
  -- `TypeError`
  unsupported_type : CursorError
  -- `KeyError`
  missing_key : CursorError

pub data Result (A : Type 0) : Type 0 where
  ok : A → Result A
  raises : CursorError → Result A

abbrev pub bind : {A B : Type 0} → Result A → (A → Result B) → Result B
bind (ok a) f = f a
bind (raises e) f = raises e

-- What the token holds once it is JSON. `keys` is `none` where it is no list, and a key is `none`
-- where it is no pair of a text and a scalar.
pub record Payload : Type 0 where
  pub version : ℕ
  pub fingerprint : Text
  pub keys : Option (List (Option (Text × Scalar)))

-- `json` and `base64` on payloads, and `_fingerprint`, which hashes the name and the sort.
pub record Tokens : Type 1 where
  -- The texts that a client gets.
  pub Token : Type 0
  pub to_token : Payload → Token
  pub from_token : Token → Option Payload
  pub from_token-to_token : (p : Payload) → from_token (to_token p) ≡ some p
  pub fingerprint : Text → SortSpec → Text

-- `elim` on an option that stands for an exception.
abbrev pub or_malformed : {A : Type 0} → Option A → Result A
or_malformed none = raises malformed
or_malformed (some a) = ok a

module _ (bson : Bson) where
  open bson use {ObjectId, DateTime, Decimal128}

  -- A value that a document holds at a sort field; `other` is a value of any other type.
  pub data Value : Type 0 where
    object_id : ObjectId → Value
    date_time : DateTime → Value
    decimal : Decimal128 → Value
    scalar : Scalar → Value
    other : Value

  unfoldable pub tag : Value → Result (Text × Scalar)
  tag (object_id x) = ok (codes "oid", string (bson.show_id x))
  tag (date_time x) = ok (codes "dt", string (bson.isoformat x))
  tag (decimal x) = ok (codes "dec", string (bson.show_decimal x))
  tag (scalar x) = ok (codes "raw", x)
  tag other = raises unsupported_type

  -- The constructors of the three types refuse what is not a text.
  abbrev pub from_text : (Text → Option Value) → Scalar → Result Value
  from_text parse (string s) = or_malformed (parse s)
  from_text parse _ = raises malformed

  unfoldable pub untag : Option (Text × Scalar) → Result Value
  untag none = raises malformed
  untag (some (t, value)) =
      if eq_text t (codes "oid")
      then from_text (λ s. Option.map object_id (bson.parse_id s)) value
      else if eq_text t (codes "dt")
      then from_text (λ s. Option.map date_time (bson.fromisoformat s)) value
      else if eq_text t (codes "dec")
      then from_text (λ s. Option.map decimal (bson.parse_decimal s)) value
      else if eq_text t (codes "raw")
      then ok (scalar value)
      else raises malformed

  unfoldable pub tag_all : List Value → Result (List (Option (Text × Scalar)))
  tag_all [] = ok []
  tag_all (v ∷ vs) = bind (tag v) λ t. bind (tag_all vs) λ ts. ok (some t ∷ ts)

  unfoldable pub untag_all : List (Option (Text × Scalar)) → Result (List Value)
  untag_all [] = ok []
  untag_all (t ∷ ts) = bind (untag t) λ v. bind (untag_all ts) λ vs. ok (v ∷ vs)

  module _ (tokens : Tokens) where
    abbrev pub payload : Text → SortSpec → List (Option (Text × Scalar)) → Payload
    payload collection sort keys = record {
      version = cursor_version;
      fingerprint = tokens.fingerprint collection sort;
      keys = some keys;
    }

    unfoldable pub encode_cursor : Text → SortSpec → List Value → Result tokens.Token
    encode_cursor collection sort values =
        bind (tag_all values) λ keys. ok (tokens.to_token (payload collection sort keys))

    -- `not isinstance(keys, list) or len(keys) != len(sort)`, then the values.
    abbrev pub decode_keys : SortSpec → Option (List (Option (Text × Scalar))) → Result (List Value)
    decode_keys sort none = raises malformed
    decode_keys sort (some keys) =
        if length keys == length sort then untag_all keys else raises malformed

    unfoldable pub decode_payload : Text → SortSpec → Payload → Result (List Value)
    decode_payload collection sort p =
        if not (p.version == cursor_version)
        then raises unsupported_version
        else if not (eq_text p.fingerprint (tokens.fingerprint collection sort))
        then raises not_of_this_query
        else decode_keys sort p.keys

    unfoldable pub decode_cursor : tokens.Token → Text → SortSpec → Result (List Value)
    decode_cursor cursor collection sort =
        bind (or_malformed (tokens.from_token cursor)) (decode_payload collection sort)
