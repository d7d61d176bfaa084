-- ===== src/Graphql/Sdl/Nested.antt =====
-- src/bank_ods/graphql/sdl.py: `_collect_nested_types`, no class twice.
use bank_ods_unified_api.Prelude.{
  ℕ, ◌+◌, ◌≡◌, String, Bool, true, false, List, [], ◌∷◌, ◌++◌, if◌then◌else◌, if-cases, str_eq,
  str_eq_iff, Bool-cases, inl, inr, arith, sym, ap, ◌∙◌,
}
use bank_ods_unified_api.Models.Base.{
  Annotation, Fields, str_type, int_type, float_type, bool_type, decimal_type, date_time_type,
  literal, optional_of, list_of, document, no_more, one_field,
}
use bank_ods_unified_api.Graphql.Sdl.{
  Class, Collected, seen_in, and_then, appended, collect_annotation, collect_nested_types,
}

-- The class that an annotation names, and those that the fields of a class name.
unfoldable pub names_class : String → Annotation → Bool
names_class n (optional_of a) = names_class n a
names_class n (list_of a) = names_class n a
names_class n (document name fields) = str_eq name n
names_class n (literal values) = false
names_class n str_type = false
names_class n int_type = false
names_class n float_type = false
names_class n bool_type = false
names_class n decimal_type = false
names_class n date_time_type = false

unfoldable pub refers_to : String → Fields → Bool
refers_to n no_more = false
refers_to n (one_field name a fields) = if names_class n a then true else refers_to n fields

abbrev pub one_if : Bool → ℕ
one_if b = if b then 1 else 0

-- The number of blocks for a class.
unfoldable pub blocks_for : String → List Class → ℕ
blocks_for n [] = 0
blocks_for n ((name, fields) ∷ classes) = one_if (str_eq name n) + blocks_for n classes

blocks_for-++ :
    (n : String) (xs ys : List Class) → blocks_for n (xs ++ ys) ≡ blocks_for n xs + blocks_for n ys
unfolding blocks_for
blocks_for-++ n [] ys = omega arith
blocks_for-++ n ((name, fields) ∷ xs) ys = ground (arith, blocks_for-++ n xs ys)

-- A class has been seen after, if it was before or has a block now, and then only one.
abbrev pub Once : String → List String → Collected → Type 0
Once n seen (classes, seen') =
    blocks_for n classes + one_if (seen_in seen n) ≡ one_if (seen_in seen' n)

pub Once-and_then :
    (n : String) (seen : List String) (c : Collected) (rest : List String → Collected)
    → Once n seen c
    → Once n c.1 (rest c.1)
    → Once n seen (and_then c rest)
Once-and_then n seen (classes, seen') rest h k =
    omega (arith, blocks_for-++ n classes (rest seen').0)

Once-appended :
    (n name : String) (fields : Fields) (seen : List String) (c : Collected)
    → seen_in seen name ≡ false
    → Once n (name ∷ seen) c
    → Once n seen (appended (name, fields) c)
unfolding seen_in blocks_for
Once-appended n name fields seen (classes, seen') new h = elim (Bool-cases (str_eq name n)) [
  | inl e ↦
      let old : seen_in seen n ≡ false = ap (seen_in seen) (sym ((str_eq_iff name n).0 e)) ∙ new in
      ground (arith, blocks_for-++ n classes ((name, fields) ∷ []))
  | inr e ↦ ground (arith, blocks_for-++ n classes ((name, fields) ∷ []))
]

mutual
  unfolding collect_annotation collect_nested_types blocks_for

  pub collect_annotation-Once :
      (n : String) (a : Annotation) (seen : List String) → Once n seen (collect_annotation a seen)
  collect_annotation-Once n (optional_of a) seen = collect_annotation-Once n a seen
  collect_annotation-Once n (list_of a) seen = collect_annotation-Once n a seen
  collect_annotation-Once n (document name fields) seen =
      if-cases (Once n seen) (seen_in seen name) _ _ (λ _. omega arith)
        (λ new.
          Once-appended n name fields seen (collect_nested_types fields (name ∷ seen)) new
            (collect_nested_types-Once n fields (name ∷ seen)))
  collect_annotation-Once n (literal values) seen = omega arith
  collect_annotation-Once n str_type seen = omega arith
  collect_annotation-Once n int_type seen = omega arith
  collect_annotation-Once n float_type seen = omega arith
  collect_annotation-Once n bool_type seen = omega arith
  collect_annotation-Once n decimal_type seen = omega arith
  collect_annotation-Once n date_time_type seen = omega arith

  pub collect_nested_types-Once :
      (n : String) (fields : Fields) (seen : List String)
      → Once n seen (collect_nested_types fields seen)
  collect_nested_types-Once n no_more seen = omega arith
  collect_nested_types-Once n (one_field name a fields) seen =
      Once-and_then n seen (collect_annotation a seen) (collect_nested_types fields)
        (collect_annotation-Once n a seen)
        (collect_nested_types-Once n fields (collect_annotation a seen).1)

-- What has been seen stays seen.
pub Once-seen :
    (n : String) (seen : List String) (c : Collected)
    → Once n seen c
    → seen_in seen n ≡ true
    → seen_in c.1 n ≡ true
Once-seen n seen (classes, seen') h s = ground arith
