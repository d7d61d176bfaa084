-- ===== src/Graphql/Sdl.antt =====
-- src/bank_ods/graphql/sdl.py: the text of the schema. A class is known by its name, which no other
-- class has; `seen` is the set of the classes that have been collected.
pub mod Nested
pub mod Closed
pub mod Defined
use bank_ods_unified_api.Prelude.{
  String, Bool, true, false, not, Option, none, some, List, [], ◌∷◌, ◌++◌, map, if◌then◌else◌,
  str_eq,
}
use bank_ods_unified_api.Prelude.Text.{Text, codes}
use bank_ods_unified_api.Models.Base.{
  Annotation, Fields, Entity, str_type, int_type, float_type, bool_type, decimal_type,
  date_time_type, literal, optional_of, list_of, document, no_more, one_field,
}
use bank_ods_unified_api.Models.Registry.{
  entities_raw, active_entities, get_field_name, list_field_name,
}
use bank_ods_unified_api.Graphql.Static.{semantic_query_lines, extra_type_lines}

abbrev pub newline : Text
newline = b'\n' ∷ []

-- `"\n".join(lines)`
unfoldable pub join_lines : List Text → Text
join_lines [] = []
join_lines (l ∷ []) = l
join_lines (l ∷ m ∷ ls) = l ++ newline ++ join_lines (m ∷ ls)

abbrev pub bang : Text → Bool → Text
bang t nullable = if nullable then t else t ++ codes "!"

unfoldable pub py_to_gql : Annotation → Bool → Text
py_to_gql (optional_of a) nullable = py_to_gql a true
py_to_gql (list_of a) nullable = bang (codes "[" ++ py_to_gql a false ++ codes "]") nullable
py_to_gql (literal values) nullable = bang (codes "String") nullable
py_to_gql (document name fields) nullable = bang (codes name) nullable
py_to_gql date_time_type nullable = bang (codes "DateTime") nullable
py_to_gql str_type nullable = bang (codes "String") nullable
py_to_gql int_type nullable = bang (codes "Int") nullable
py_to_gql float_type nullable = bang (codes "Float") nullable
py_to_gql bool_type nullable = bang (codes "Boolean") nullable
py_to_gql decimal_type nullable = bang (codes "Decimal") nullable

abbrev pub Class : Type 0
Class = String × Fields

unfoldable pub seen_in : List String → String → Bool
seen_in [] name = false
seen_in (n ∷ seen) name = if str_eq n name then true else seen_in seen name

abbrev pub Collected : Type 0
Collected = List Class × List String

abbrev pub and_then : Collected → (List String → Collected) → Collected
and_then (classes, seen) rest = let (more, seen') = rest seen in (classes ++ more, seen')

-- `result.extend(...); result.append(cls)`
abbrev pub appended : Class → Collected → Collected
appended class (classes, seen) = (classes ++ class ∷ [], seen)

unfoldable mutual
  -- The body of the loop over the fields, on the class that `_find_nested` gives, if any.
  pub collect_annotation : Annotation → List String → Collected
  collect_annotation (optional_of a) seen = collect_annotation a seen
  collect_annotation (list_of a) seen = collect_annotation a seen
  collect_annotation (document name fields) seen =
      let nested = collect_nested_types fields (name ∷ seen) in
      if seen_in seen name then ([], seen) else appended (name, fields) nested
  collect_annotation (literal values) seen = ([], seen)
  collect_annotation str_type seen = ([], seen)
  collect_annotation int_type seen = ([], seen)
  collect_annotation float_type seen = ([], seen)
  collect_annotation bool_type seen = ([], seen)
  collect_annotation decimal_type seen = ([], seen)
  collect_annotation date_time_type seen = ([], seen)

  pub collect_nested_types : Fields → List String → Collected
  collect_nested_types no_more seen = ([], seen)
  collect_nested_types (one_field name annotation fields) seen =
      and_then (collect_annotation annotation seen) (collect_nested_types fields)

-- The loop of `generate_sdl` over the entities.
unfoldable pub nested_types_of : List Entity → List String → Collected
nested_types_of [] seen = ([], seen)
nested_types_of (e ∷ es) seen = and_then (collect_nested_types e.fields seen) (nested_types_of es)

unfoldable pub field_lines : Fields → List Text
field_lines no_more = []
field_lines (one_field name annotation fields) =
    (codes "  " ++ codes name ++ codes ": " ++ py_to_gql annotation false) ∷ field_lines fields

unfoldable pub type_block : Class → Text
type_block (name, fields) =
    join_lines ((codes "type " ++ codes name ++ codes " {") ∷ field_lines fields ++ codes "}" ∷ [])

unfoldable pub list_type_block : String → Text
list_type_block name = join_lines (
    (codes "type " ++ codes name ++ codes "List {")
    ∷ (codes "  data: [" ++ codes name ++ codes "!]!")
    ∷ codes "  pageInfo: PageInfo!"
    ∷ codes "}"
    ∷ [])

abbrev pub get_lines : Entity → List Text
get_lines model =
    if str_eq model.id_field ""
    then []
    else (codes "  "
        ++ get_field_name model
        ++ codes "("
        ++ codes model.id_field
        ++ codes ": String!): "
        ++ codes model.class_name)
      ∷ []

abbrev pub list_lines : Entity → List Text
list_lines model =
    if model.unfiltered_list
    then (codes "  "
        ++ list_field_name model
        ++ codes "(limit: Int, cursor: String): "
        ++ codes model.class_name
        ++ codes "List!")
      ∷ []
    else []

unfoldable pub generated_query_fields : Entity → Text
generated_query_fields model = join_lines (
    (codes "  # " ++ codes model.class_name ++ codes " (generated from registry metadata)")
      ∷ get_lines model
    ++ list_lines model)

-- The blocks of the classes, each with an empty one after it.
unfoldable pub class_blocks : List Class → List Text
class_blocks [] = []
class_blocks (c ∷ cs) = type_block c ∷ [] ∷ class_blocks cs

unfoldable pub entity_blocks : List Entity → List Text
entity_blocks [] = []
entity_blocks (e ∷ es) =
    let rest = entity_blocks es in
    if str_eq e.collection ""
    then rest
    else type_block (e.class_name, e.fields) ∷ [] ∷ list_type_block e.class_name ∷ [] ∷ rest

unfoldable pub raw_query_fields : List Entity → Text
raw_query_fields [] = []
raw_query_fields (e ∷ es) = newline ++ generated_query_fields e ++ newline ++ raw_query_fields es

abbrev pub preamble : List Text
preamble =
    codes "scalar DateTime"
    ∷ codes "scalar Decimal"
    ∷ []
    ∷ join_lines (
        codes "type PageInfo {"
        ∷ codes "  hasMore: Boolean!"
        ∷ codes "  nextCursor: String"
        ∷ codes "}"
        ∷ [])
    ∷ []
    ∷ []

unfoldable pub query_fields_of : Bool → Bool → Text
query_fields_of semantic_tier raw_tier =
    (if semantic_tier then join_lines (map codes semantic_query_lines) else [])
    ++ (if raw_tier then raw_query_fields entities_raw else [])

unfoldable pub extra_blocks : Bool → List Text
extra_blocks semantic_tier =
    if semantic_tier then join_lines (map codes extra_type_lines) ∷ [] ∷ [] else []

abbrev pub with_query : List Text → Text → Option Text
with_query blocks [] = none
with_query blocks (c ∷ fields) =
    some (join_lines (blocks ++ (codes "type Query {" ++ (c ∷ fields) ++ codes "}") ∷ []))

-- `none` is the RuntimeError of a schema without query fields.
unfoldable pub generate_sdl : Bool → Bool → Option Text
generate_sdl semantic_tier raw_tier =
    let active = active_entities semantic_tier raw_tier in
    with_query
      (preamble
        ++ class_blocks (nested_types_of active []).0
        ++ entity_blocks active
        ++ extra_blocks semantic_tier)
      (query_fields_of semantic_tier raw_tier)
