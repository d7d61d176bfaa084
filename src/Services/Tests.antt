-- ===== src/Services/Tests.antt =====
-- Instances of the theorems on pagination.
use bank_ods_unified_api.Prelude.{
  ℕ, Ordering, ◌≤◌, ◌≡◌, refl, sym, ◌∙◌, Bool, true, false, none, some, List, [], ◌∷◌, take, ◌==◌,
  if◌then◌else◌, arith,
}
use bank_ods_unified_api.Prelude.Text.{
  Text, codes, compare_text, compare_text_self, compare_text_eq, compare_text_flip,
  compare_text_unflip, lt_text, lt_text_trans,
}
use bank_ods_unified_api.Prelude.Strip.{split}
use bank_ods_unified_api.Prelude.Int.{pos, negsuc}
use bank_ods_unified_api.Services.Cursor.{
  Bson, Tokens, Payload, SortSpec, descending, string, integer, real, boolean, null, Value,
  object_id, date_time, decimal, scalar, other, ok, raises, not_of_this_query, payload, tag,
  tag_all, encode_cursor, decode_cursor, clamp_limit, max_limit, clamp_limit-bounds,
}
use bank_ods_unified_api.Services.Cursor.RoundTrip.{
  decode_cursor-encode_cursor, decode_cursor-other_query,
}
use bank_ods_unified_api.Services.Seek.{
  ValueOrder, Doc, value, nested, no_fields, field, keys_of, get_path, walk_path, get_field,
  seek_predicate, satisfies_any, is_gt,
}
use bank_ods_unified_api.Services.Seek.Order.{
  Distinct, compare_keys, seek_predicate-compare_keys, some_injective,
}
use bank_ods_unified_api.Services.Paginate.{Collection, full_sort, filter}
use bank_ods_unified_api.Services.Paginate.Resume.{Before}
use bank_ods_unified_api.Services.Paginate.Walk.{walk, Lists, walk-filter}

abbrev bson : Bson
bson = record {
  ObjectId = Text;
  DateTime = Text;
  Decimal128 = Text;
  show_id = λ x. x;
  parse_id = λ x. some x;
  parse_id-show_id = λ x. refl;
  isoformat = λ x. x;
  fromisoformat = λ x. some x;
  fromisoformat-isoformat = λ x. refl;
  show_decimal = λ x. x;
  parse_decimal = λ x. some x;
  parse_decimal-show_decimal = λ x. refl;
}

-- A token is the payload itself, and a fingerprint the name of the collection.
abbrev tokens : Tokens
tokens = record {
  Token = Payload;
  to_token = λ p. p;
  from_token = λ p. some p;
  from_token-to_token = λ p. refl;
  fingerprint = λ collection sort. collection;
}

-- The values in the order of their codes.
code : Value bson → Text
code (object_id x) = 0 ∷ x
code (date_time x) = 1 ∷ x
code (decimal x) = 2 ∷ x
code (scalar (string x)) = 3 ∷ x
code (scalar (integer (pos n))) = 4 ∷ n ∷ []
code (scalar (integer (negsuc n))) = 5 ∷ n ∷ []
code (scalar (real x)) = 6 ∷ x
code (scalar (boolean true)) = 7 ∷ []
code (scalar (boolean false)) = 8 ∷ []
code (scalar null) = 9 ∷ []
code other = []

first_of : Text → ℕ
first_of [] = 0
first_of (n ∷ rest) = n

uncode : Text → Value bson
uncode [] = other
uncode (k ∷ x) =
    if k == 0
    then object_id x
    else if k == 1
    then date_time x
    else if k == 2
    then decimal x
    else if k == 3
    then scalar (string x)
    else if k == 4
    then scalar (integer (pos (first_of x)))
    else if k == 5
    then scalar (integer (negsuc (first_of x)))
    else if k == 6
    then scalar (real x)
    else if k == 7
    then scalar (boolean true)
    else if k == 8
    then scalar (boolean false)
    else scalar null

uncode-code : (v : Value bson) → uncode (code v) ≡ v
unfolding code uncode first_of
uncode-code (object_id x) = refl
uncode-code (date_time x) = refl
uncode-code (decimal x) = refl
uncode-code (scalar (string x)) = refl
uncode-code (scalar (integer (pos n))) = refl
uncode-code (scalar (integer (negsuc n))) = refl
uncode-code (scalar (real x)) = refl
uncode-code (scalar (boolean true)) = refl
uncode-code (scalar (boolean false)) = refl
uncode-code (scalar null) = refl
uncode-code other = refl

lt_text_lt : (a b : Text) → lt_text a b ≡ true → compare_text a b ≡ Ordering.lt
lt_text_lt a b h = ground arith

lt_lt_text : (a b : Text) → compare_text a b ≡ Ordering.lt → lt_text a b ≡ true
lt_lt_text a b h = ground arith

abbrev bracket_of : Value bson → ℕ
bracket_of (date_time _) = 0
bracket_of (object_id _) = 1
bracket_of (scalar (string _)) = 2
bracket_of (scalar (integer _)) = 3
bracket_of (scalar (real _)) = 3
bracket_of (decimal _) = 3
bracket_of (scalar (boolean _)) = 4
bracket_of (scalar null) = 5
bracket_of other = 6

abbrev null_value : Value bson → Bool
null_value (scalar null) = true
null_value _ = false

abbrev order : ValueOrder (Value bson)
order = record {
  compare = λ a b. compare_text (code a) (code b);
  bracket = bracket_of;
  is_null = null_value;
  compare_eq_flip = λ a b h. rw (compare_text_eq (code a) (code b) h) (compare_text_self (code b));
  compare_self = λ a. compare_text_self (code a);
  compare_flip = λ a b h. compare_text_flip (code a) (code b) h;
  compare_unflip = λ a b h. compare_text_unflip (code a) (code b) h;
  compare_trans = λ a b c h k. lt_text_lt (code a) (code c) (
      lt_text_trans (code a) (code b) (code c) (lt_lt_text (code a) (code b) h)
        (lt_lt_text (code b) (code c) k));
}

abbrev sort : SortSpec
sort = ("meta.day", descending) ∷ []

abbrev doc : ℕ → ℕ → Doc (Value bson)
doc id day = nested (
    field (codes "_id") (value (object_id (id ∷ []))) (
      field (codes "meta") (nested (field (codes "day") (value (date_time (day ∷ []))) no_fields))
        no_fields))

abbrev docs : List (Doc (Value bson))
docs = doc 2 9 ∷ doc 1 7 ∷ doc 3 7 ∷ []

abbrev col : Collection (Value bson)
col = record {
  name = codes "positions";
  listing = λ s. docs;
  find = λ p s n. take n (filter p docs);
  find-listing = λ p s n. refl;
}

abbrev everything : Doc (Value bson) → Bool
everything d = true

abbrev keys : ℕ → ℕ → List (Value bson)
keys id day = date_time (day ∷ []) ∷ object_id (id ∷ []) ∷ []

keys_of-doc : (id day : ℕ) → keys_of (full_sort sort) (doc id day) ≡ some (keys id day)
unfolding keys_of get_path walk_path get_field split compare_text full_sort
keys_of-doc id day = refl

token : Payload
token = payload bson tokens (codes "positions") (full_sort sort) []

distinct : Distinct (full_sort sort)
unfolding full_sort
distinct = ((refl, tt), (tt, tt))

encoded :
    (id day : ℕ)
    → (t : Payload) × (encode_cursor bson tokens (codes "positions") (full_sort sort) (keys id day)
        ≡ ok t)
unfolding encode_cursor tag_all tag
encoded id day = (_, refl)

before :
    (i a j b : ℕ)
    → compare_keys order (full_sort sort) (keys i a) (keys j b) ≡ Ordering.lt
    → Before order (full_sort sort) (doc i a) (doc j b)
before i a j b h ks ls e k =
    rw⁻¹ (some_injective (sym (keys_of-doc i a) ∙ e))
      (rw⁻¹ (some_injective (sym (keys_of-doc j b) ∙ k)) h)

lists : Lists bson tokens order col sort everything 1
unfolding full_sort compare_keys compare_text code
lists = record {
  distinct = distinct;
  brackets = 0 ∷ 1 ∷ [];
  carried = (
    (keys 2 9, ((encoded 2 9).0, keys_of-doc 2 9, refl, (encoded 2 9).1)),
    (
      (keys 1 7, ((encoded 1 7).0, keys_of-doc 1 7, refl, (encoded 1 7).1)),
      ((keys 3 7, ((encoded 3 7).0, keys_of-doc 3 7, refl, (encoded 3 7).1)), tt),
    ),
  );
  sorted =
      ((before 2 9 1 7 refl, (before 2 9 3 7 refl, tt)), ((before 1 7 3 7 refl, tt), (tt, tt)));
}

walk-filter_example :
    walk bson tokens order col sort everything 1 4 none ≡ ok (some (filter everything docs))
unfolding filter
walk-filter_example = walk-filter bson tokens order col sort everything 1 lists 4 (omega arith)

seek_predicate-compare_keys_example :
    satisfies_any order (seek_predicate (full_sort sort) (keys 1 7)) (doc 3 7)
    ≡ is_gt (compare_keys order (full_sort sort) (keys 3 7) (keys 1 7))
unfolding full_sort
seek_predicate-compare_keys_example =
    seek_predicate-compare_keys order (full_sort sort) (keys 3 7) (keys 1 7) (doc 3 7)
      (keys_of-doc 3 7) refl refl distinct

decode_cursor-encode_cursor_example :
    decode_cursor bson tokens (encoded 1 7).0 (codes "positions") (full_sort sort) ≡ ok (keys 1 7)
unfolding full_sort
decode_cursor-encode_cursor_example =
    decode_cursor-encode_cursor bson tokens (codes "positions") (encoded 1 7).0 (full_sort sort)
      (keys 1 7) (encoded 1 7).1 refl

decode_cursor-other_query_example :
    decode_cursor bson tokens (encoded 1 7).0 (codes "accounts") (full_sort sort)
    ≡ raises not_of_this_query
decode_cursor-other_query_example =
    decode_cursor-other_query bson tokens (codes "positions") (encoded 1 7).0 (full_sort sort)
      (keys 1 7) (codes "accounts") (full_sort sort) (encoded 1 7).1 (λ h. cc)

clamp_limit-bounds_example : (1 ≤ clamp_limit 0) × (clamp_limit 0 ≤ max_limit)
clamp_limit-bounds_example = clamp_limit-bounds 0
