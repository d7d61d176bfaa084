-- ===== src/Graphql/Sdl/Defined.antt =====
-- src/bank_ods/graphql/sdl.py: the loop of `generate_sdl` that collects the nested types.
use bank_ods_unified_api.Prelude.{
  ◌≤◌, ◌≡◌, String, true, List, [], ◌∷◌, All, Bool-cases, inl, inr, arith,
}
use bank_ods_unified_api.Models.Base.{Fields, Entity}
use bank_ods_unified_api.Graphql.Sdl.{
  Class, Collected, seen_in, and_then, collect_nested_types, nested_types_of,
}
use bank_ods_unified_api.Graphql.Sdl.Nested.{
  refers_to, blocks_for, one_if, Once, Once-and_then, Once-seen, collect_nested_types-Once,
}
use bank_ods_unified_api.Graphql.Sdl.Closed.{
  Within, AllWithin, Extends, Closed, Closed-and_then, collect_nested_types-Closed,
}

nested_types_of-Once :
    (n : String) (es : List Entity) (seen : List String) → Once n seen (nested_types_of es seen)
unfolding nested_types_of blocks_for
nested_types_of-Once n [] seen = omega arith
nested_types_of-Once n (e ∷ es) seen =
    Once-and_then n seen (collect_nested_types e.fields seen) (nested_types_of es)
      (collect_nested_types-Once n e.fields seen)
      (nested_types_of-Once n es (collect_nested_types e.fields seen).1)

nested_types_of-Extends :
    (es : List Entity) (seen : List String) → Extends seen (nested_types_of es seen).1
nested_types_of-Extends es seen n =
    Once-seen n seen (nested_types_of es seen) (nested_types_of-Once n es seen)

abbrev AllNamed : List Entity → Collected → Type 0
AllNamed es (classes, seen) = All (λ (e : Entity). Within seen e.fields) es

AllNamed-and_then :
    (e : Entity) (es : List Entity) (c : Collected) (rest : List String → Collected)
    → Within c.1 e.fields
    → Extends c.1 (rest c.1).1
    → AllNamed es (rest c.1)
    → AllNamed (e ∷ es) (and_then c rest)
AllNamed-and_then e es (classes, seen) rest w x h = (λ n r. x n (w n r), h)

nested_types_of-Closed :
    (es : List Entity) (seen : List String)
    → Closed (nested_types_of es seen) × AllNamed es (nested_types_of es seen)
unfolding nested_types_of
nested_types_of-Closed [] seen = (tt, tt)
nested_types_of-Closed (e ∷ es) seen =
    let c = collect_nested_types e.fields seen in
    let (h, w) = collect_nested_types-Closed e.fields seen in
    let (k, g) = nested_types_of-Closed es c.1 in
    let x = nested_types_of-Extends es c.1 in
    (
      Closed-and_then c (nested_types_of es) x h k,
      AllNamed-and_then e es c (nested_types_of es) w x g,
    )

-- A class that the fields name has a block.
abbrev pub IsDefined : String → List Class → Fields → Type 0
IsDefined n classes fields = one_if (refers_to n fields) ≤ blocks_for n classes

IsDefined-Within :
    (n : String) (classes : List Class) (seen : List String) (fields : Fields)
    → Once n [] (classes, seen)
    → Within seen fields
    → IsDefined n classes fields
unfolding seen_in
IsDefined-Within n classes seen fields o w = elim (Bool-cases (refers_to n fields)) [
  | inl e ↦ let s : seen_in seen n ≡ true = w n e in ground arith
  | inr e ↦ ground arith
]

IsDefined-classes :
    (n : String) (all classes : List Class) (seen : List String)
    → Once n [] (all, seen)
    → AllWithin seen classes
    → All (λ (class : Class). IsDefined n all class.1) classes
IsDefined-classes n all [] seen o h = tt
IsDefined-classes n all (c ∷ classes) seen o (h, hs) =
    (IsDefined-Within n all seen c.1 o h, IsDefined-classes n all classes seen o hs)

IsDefined-entities :
    (n : String) (all : List Class) (es : List Entity) (seen : List String)
    → Once n [] (all, seen)
    → AllNamed es (all, seen)
    → All (λ (e : Entity). IsDefined n all e.fields) es
IsDefined-entities n all [] seen o h = tt
IsDefined-entities n all (e ∷ es) seen o (h, hs) =
    (IsDefined-Within n all seen e.fields o h, IsDefined-entities n all es seen o hs)

abbrev pub AreDefined : String → List Entity → Collected → Type 0
AreDefined n es (classes, seen) =
    (blocks_for n classes ≤ 1)
    × All (λ (e : Entity). IsDefined n classes e.fields) es
    × All (λ (class : Class). IsDefined n classes class.1) classes

AreDefined-collected :
    (n : String) (es : List Entity) (c : Collected)
    → Once n [] c
    → Closed c
    → AllNamed es c
    → AreDefined n es c
unfolding seen_in
AreDefined-collected n es (classes, seen) o h k = (
  ground arith,
  IsDefined-entities n classes es seen o k,
  IsDefined-classes n classes classes seen o h,
)

-- Of the types that the schema collects from the entities' fields, no name has two blocks, and each
-- name that a field of an entity or of such a type refers to has one.
pub nested_types_of-AreDefined :
    (n : String) (es : List Entity) → AreDefined n es (nested_types_of es [])
nested_types_of-AreDefined n es =
    let (h, k) = nested_types_of-Closed es [] in
    AreDefined-collected n es (nested_types_of es []) (nested_types_of-Once n es []) h k
