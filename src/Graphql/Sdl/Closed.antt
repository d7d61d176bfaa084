-- ===== src/Graphql/Sdl/Closed.antt =====
-- src/bank_ods/graphql/sdl.py: `_collect_nested_types`, every class that is named.
use bank_ods_unified_api.Prelude.{
  ◌≡◌, String, true, List, [], ◌∷◌, ◌++◌, All, if◌then◌else◌, if-cases, str_eq_iff, str_eq_refl,
  sym, ap, ◌∙◌, Bool-cases, inl, inr,
}
use bank_ods_unified_api.Models.Base.{
  Annotation, Fields, str_type, int_type, float_type, bool_type, decimal_type, date_time_type,
  literal, optional_of, list_of, document, no_more, one_field,
}
use bank_ods_unified_api.Graphql.Sdl.{
  Class, Collected, seen_in, and_then, appended, collect_annotation, collect_nested_types,
}
use bank_ods_unified_api.Graphql.Sdl.Nested.{
  names_class, refers_to, Once-seen, collect_annotation-Once, collect_nested_types-Once,
}

-- Every class that the fields name is among those that have been seen.
abbrev pub Within : List String → Fields → Type 0
Within seen fields = (n : String) → refers_to n fields ≡ true → seen_in seen n ≡ true

abbrev pub AllWithin : List String → List Class → Type 0
AllWithin seen classes = All (λ (class : Class). Within seen class.1) classes

abbrev pub Extends : List String → List String → Type 0
Extends seen seen' = (n : String) → seen_in seen n ≡ true → seen_in seen' n ≡ true

AllWithin-Extends :
    (seen seen' : List String) (classes : List Class)
    → Extends seen seen'
    → AllWithin seen classes
    → AllWithin seen' classes
AllWithin-Extends seen seen' [] x h = tt
AllWithin-Extends seen seen' (c ∷ classes) x (h, hs) =
    (λ n r. x n (h n r), AllWithin-Extends seen seen' classes x hs)

AllWithin-++ :
    (seen : List String) (xs ys : List Class)
    → AllWithin seen xs
    → AllWithin seen ys
    → AllWithin seen (xs ++ ys)
AllWithin-++ seen [] ys h k = k
AllWithin-++ seen (x ∷ xs) ys (h, hs) k = (h, AllWithin-++ seen xs ys hs k)

-- What is collected names only classes that have been seen.
abbrev pub Closed : Collected → Type 0
Closed (classes, seen) = AllWithin seen classes

pub Closed-and_then :
    (c : Collected) (rest : List String → Collected)
    → Extends c.1 (rest c.1).1
    → Closed c
    → Closed (rest c.1)
    → Closed (and_then c rest)
Closed-and_then (classes, seen) rest x h k =
    AllWithin-++ (rest seen).1 classes (rest seen).0
      (AllWithin-Extends seen (rest seen).1 classes x h) k

Closed-appended :
    (class : Class) (c : Collected) → Within c.1 class.1 → Closed c → Closed (appended class c)
Closed-appended class (classes, seen) h k = AllWithin-++ seen classes (class ∷ []) k (h, tt)

collect_annotation-Extends :
    (a : Annotation) (seen : List String) → Extends seen (collect_annotation a seen).1
collect_annotation-Extends a seen n =
    Once-seen n seen (collect_annotation a seen) (collect_annotation-Once n a seen)

collect_nested_types-Extends :
    (fields : Fields) (seen : List String) → Extends seen (collect_nested_types fields seen).1
collect_nested_types-Extends fields seen n =
    Once-seen n seen (collect_nested_types fields seen) (collect_nested_types-Once n fields seen)

Within-and_then :
    (fields : Fields) (c : Collected) (rest : List String → Collected)
    → Within (rest c.1).1 fields
    → Within (and_then c rest).1 fields
Within-and_then fields (classes, seen) rest h = h

Within-one_field :
    (name : String) (a : Annotation) (fields : Fields) (seen seen' : List String)
    → Extends seen seen'
    → ((n : String) → names_class n a ≡ true → seen_in seen n ≡ true)
    → Within seen' fields
    → Within seen' (one_field name a fields)
unfolding refers_to
Within-one_field name a fields seen seen' x h k n r = elim (Bool-cases (names_class n a)) [
  | inl e ↦ x n (h n e)
  | inr e ↦ k n (rw e at r)
]

-- What the annotation names is among those that have been seen.
abbrev Named : Annotation → Collected → Type 0
Named a (classes, seen) = (n : String) → names_class n a ≡ true → seen_in seen n ≡ true

Named-seen :
    (a : Annotation) (c : Collected)
    → Named a c
    → (n : String) → names_class n a ≡ true
    → seen_in c.1 n ≡ true
Named-seen a (classes, seen) h = h

Named-appended :
    (name : String) (fields : Fields) (c : Collected)
    → seen_in c.1 name ≡ true
    → Named (document name fields) (appended (name, fields) c)
unfolding names_class
Named-appended name fields (classes, seen) h n e =
    ap (seen_in seen) (sym ((str_eq_iff name n).0 e)) ∙ h

Named-again :
    (name : String) (fields : Fields) (seen : List String)
    → seen_in seen name ≡ true
    → Named (document name fields) ([], seen)
unfolding names_class
Named-again name fields seen h n e = ap (seen_in seen) (sym ((str_eq_iff name n).0 e)) ∙ h

seen_in_self : (name : String) (seen : List String) → seen_in (name ∷ seen) name ≡ true
unfolding seen_in
seen_in_self name seen = rw (str_eq_refl name)

abbrev IsCollected : Annotation → Collected → Type 0
IsCollected a c = Closed c × Named a c

document-IsCollected :
    (name : String) (fields : Fields) (seen : List String) (c : Collected)
    → Extends (name ∷ seen) c.1
    → Closed c
    → Within c.1 fields
    → IsCollected
        (document name fields)
        (if seen_in seen name then ([], seen) else appended (name, fields) c)
document-IsCollected name fields seen c x k w =
    if-cases (IsCollected (document name fields)) (seen_in seen name) _ _
      (λ old. (tt, Named-again name fields seen old))
      (λ _. (
        Closed-appended (name, fields) c w k,
        Named-appended name fields c (x name (seen_in_self name seen)),
      ))

mutual
  unfolding collect_annotation collect_nested_types names_class refers_to

  collect_annotation-Closed :
      (a : Annotation) (seen : List String)
      → Closed (collect_annotation a seen) × Named a (collect_annotation a seen)
  collect_annotation-Closed (optional_of a) seen = collect_annotation-Closed a seen
  collect_annotation-Closed (list_of a) seen = collect_annotation-Closed a seen
  collect_annotation-Closed (document name fields) seen =
      let (k, w) = collect_nested_types-Closed fields (name ∷ seen) in
      document-IsCollected name fields seen (collect_nested_types fields (name ∷ seen))
        (collect_nested_types-Extends fields (name ∷ seen)) k w
  collect_annotation-Closed (literal values) seen = (tt, λ n e. cc)
  collect_annotation-Closed str_type seen = (tt, λ n e. cc)
  collect_annotation-Closed int_type seen = (tt, λ n e. cc)
  collect_annotation-Closed float_type seen = (tt, λ n e. cc)
  collect_annotation-Closed bool_type seen = (tt, λ n e. cc)
  collect_annotation-Closed decimal_type seen = (tt, λ n e. cc)
  collect_annotation-Closed date_time_type seen = (tt, λ n e. cc)

  pub collect_nested_types-Closed :
      (fields : Fields) (seen : List String)
      → Closed (collect_nested_types fields seen)
        × Within (collect_nested_types fields seen).1 fields
  collect_nested_types-Closed no_more seen = (tt, λ n e. cc)
  collect_nested_types-Closed (one_field name a fields) seen =
      let c = collect_annotation a seen in
      let (h, g) = collect_annotation-Closed a seen in
      let (k, w) = collect_nested_types-Closed fields c.1 in
      let x = collect_nested_types-Extends fields c.1 in
      (
        Closed-and_then c (collect_nested_types fields) x h k,
        Within-and_then (one_field name a fields) c (collect_nested_types fields) (
            Within-one_field name a fields c.1 (collect_nested_types fields c.1).1 x
              (Named-seen a c g) w),
      )
