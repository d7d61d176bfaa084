-- ===== src/Services/Seek.antt =====
-- src/bank_ods/services/pagination.py: the range query that resumes behind a cursor. How MongoDB reads
-- a field and compares two values is `ValueOrder` and `get_path`.
pub mod Order
use bank_ods_unified_api.Prelude.{
  ℕ, Ordering, ◌≡◌, String, Bool, true, false, ◌&&◌, ◌||◌, ◌==◌, Option, none, some, List, [], ◌∷◌,
  if◌then◌else◌,
}
use bank_ods_unified_api.Prelude.Text.{Text, codes, eq_text}
use bank_ods_unified_api.Prelude.Dict.{Dict, insert}
use bank_ods_unified_api.Prelude.Strip.{split}
use bank_ods_unified_api.Services.Cursor.{SortSpec, Direction, ascending, descending}

abbrev pub is_lt : Ordering → Bool
is_lt Ordering.lt = true
is_lt _ = false

abbrev pub is_eq : Ordering → Bool
is_eq Ordering.eq = true
is_eq _ = false

abbrev pub is_gt : Ordering → Bool
is_gt Ordering.gt = true
is_gt _ = false

-- The order in which the database sorts values, and the types between which it compares: `$gt` and
-- `$lt` select only values of the type bracket of their operand. Null has a bracket of its own, and
-- so has NaN. Values that compare as equal, like 1 and 1.0, need not be the same.
pub record ValueOrder (V : Type 0) : Type 0 where
  pub compare : V → V → Ordering
  pub bracket : V → ℕ
  pub is_null : V → Bool
  pub compare_eq_flip : (a b : V) → compare a b ≡ Ordering.eq → compare b a ≡ Ordering.eq
  pub compare_self : (a : V) → compare a a ≡ Ordering.eq
  pub compare_flip : (a b : V) → compare a b ≡ Ordering.lt → compare b a ≡ Ordering.gt
  pub compare_unflip : (a b : V) → compare a b ≡ Ordering.gt → compare b a ≡ Ordering.lt
  pub compare_trans :
      (a b c : V)
      → compare a b ≡ Ordering.lt
      → compare b c ≡ Ordering.lt
      → compare a c ≡ Ordering.lt

mutual
  pub data Doc (V : Type 0) : Type 0 where
    value : V → Doc V
    nested : Fields V → Doc V

  pub data Fields (V : Type 0) : Type 0 where
    no_fields : Fields V
    field : Text → Doc V → Fields V → Fields V

-- `{field: v}`, `{field: {"$gt": v}}` and `{field: {"$lt": v}}`
pub data Condition (V : Type 0) : Type 0 where
  equals greater less : V → Condition V

abbrev pub Clause : Type 0 → Type 0
Clause V = Dict (Condition V)

module _ {V : Type 0} where
  -- `current[part]`, where `none` is the KeyError.
  unfoldable pub get_field : Text → Fields V → Option (Doc V)
  get_field name no_fields = none
  get_field name (field n d rest) = if eq_text n name then some d else get_field name rest

  abbrev pub step_into : Text → Doc V → Option (Doc V)
  step_into name (value v) = none
  step_into name (nested fields) = get_field name fields

  unfoldable pub walk_path : List Text → Doc V → Option (Doc V)
  walk_path [] d = some d
  walk_path (part ∷ parts) d = elim (step_into part d) [ none ↦ none | some e ↦ walk_path parts e ]

  abbrev pub value_of : Option (Doc V) → Option V
  value_of (some (value v)) = some v
  value_of _ = none

  -- `_get_path`, for a field that holds a value.
  unfoldable pub get_path : String → Doc V → Option V
  get_path dotted d = value_of (walk_path (split b'.' (codes dotted)) d)

  -- `[_get_path(last, f) for f, _ in full_sort]`
  unfoldable pub keys_of : SortSpec → Doc V → Option (List V)
  keys_of [] d = some []
  keys_of ((f, dir) ∷ sort) d = elim (get_path f d) [
    | none ↦ none
    | some v ↦ elim (keys_of sort d) [ none ↦ none | some vs ↦ some (v ∷ vs) ]
  ]

  abbrev pub beyond : Direction → V → Condition V
  beyond ascending v = greater v
  beyond descending v = less v

  -- The clauses from one index on, where `prefix` holds the equations of the indices before. There
  -- is a value for each field: `decode_cursor` has compared the lengths.
  unfoldable pub clauses : Clause V → SortSpec → List V → List (Clause V)
  clauses prefix [] values = []
  clauses prefix (s ∷ sort) [] = []
  clauses prefix ((f, dir) ∷ sort) (v ∷ values) =
      insert f (beyond dir v) prefix ∷ clauses (insert f (equals v) prefix) sort values

  -- The clauses under `$or`.
  unfoldable pub seek_predicate : SortSpec → List V → List (Clause V)
  seek_predicate sort values = clauses [] sort values

  module _ (order : ValueOrder V) where
    -- What the query means for one document.
    abbrev pub holds : Condition V → Option V → Bool
    holds (equals w) none = order.is_null w
    holds (greater w) none = false
    holds (less w) none = false
    holds (equals w) (some v) = is_eq (order.compare v w)
    holds (greater w) (some v) = (order.bracket v == order.bracket w) && is_gt (order.compare v w)
    holds (less w) (some v) = (order.bracket v == order.bracket w) && is_lt (order.compare v w)

    unfoldable pub satisfies_all : Clause V → Doc V → Bool
    satisfies_all [] d = true
    satisfies_all ((f, c) ∷ clause) d = holds c (get_path f d) && satisfies_all clause d

    unfoldable pub satisfies_any : List (Clause V) → Doc V → Bool
    satisfies_any [] d = false
    satisfies_any (clause ∷ rest) d = satisfies_all clause d || satisfies_any rest d
