-- ===== src/Graphql/Tests.antt =====
-- src/bank_ods/graphql: a type block, and the types that are nested in the entities.
use bank_ods_unified_api.Prelude.{some, ◌↔◌, ◌⊎◌, ◌≡◌, refl, [], ◌∷◌, map, true, false, String}
use bank_ods_unified_api.Prelude.Text.{codes}
use bank_ods_unified_api.Models.Base.{fields_of}
use bank_ods_unified_api.Models.Registry.{entities}
use bank_ods_unified_api.Models.Activity.{status_history_entry_model}
use bank_ods_unified_api.Prelude.Dict.{contains, lookup}
use bank_ods_unified_api.Graphql.Protection.{
  Selection, Selections, field_node, inline_fragment, fragment_spread, no_selection, one_selection,
  Fragments, depth_limit_rule, max_depth_of, depth_of_selections, root_fields_limit_rule,
  count_selections,
}
use bank_ods_unified_api.Graphql.Protection.Longest.{IsTooDeep, depth_limit_rule-IsTooDeep_iff}
use bank_ods_unified_api.Graphql.Sdl.Defined.{AreDefined, nested_types_of-AreDefined}
use bank_ods_unified_api.Graphql.Sdl.{
  Class, type_block, join_lines, field_lines, py_to_gql, nested_types_of, collect_nested_types,
  collect_annotation, seen_in,
}

abbrev name_of : Class → String
name_of class = class.0

type_block_test :
    type_block (status_history_entry_model.class_name, status_history_entry_model.fields)
    ≡ codes "type StatusHistoryEntry {\n  status: String!\n  timestamp: DateTime!\n}"
unfolding type_block join_lines field_lines py_to_gql fields_of
type_block_test = refl

nested_types_test :
    map name_of (nested_types_of entities []).0
    ≡ "ClientMaster" ∷ "Listing" ∷ "StatusHistoryEntry" ∷ "CrmClientState" ∷ "CrmAccountState" ∷ []
unfolding nested_types_of collect_nested_types collect_annotation seen_in fields_of
nested_types_test = refl

nested_types_of-AreDefined_example : AreDefined "Listing" entities (nested_types_of entities [])
nested_types_of-AreDefined_example = nested_types_of-AreDefined "Listing" entities

-- A fragment that spreads itself under a field, and a query that spreads it under another.
abbrev cyclic : Fragments
cyclic =
    (
      "F",
      one_selection (field_node (one_selection (fragment_spread "F") no_selection)) no_selection,
    )
    ∷ []

abbrev deep_query : Selections
deep_query =
    one_selection (field_node (one_selection (fragment_spread "F") no_selection)) no_selection

depth_limit_rule_test : depth_limit_rule cyclic 1 deep_query ≡ some true
unfolding depth_limit_rule max_depth_of depth_of_selections contains lookup
depth_limit_rule_test = refl

depth_limit_rule-IsTooDeep_iff_example :
    ((depth_limit_rule cyclic 1 deep_query ≡ some true) ↔ IsTooDeep cyclic 1 deep_query)
    × ((depth_limit_rule cyclic 1 deep_query ≡ some true)
        ⊎ (depth_limit_rule cyclic 1 deep_query ≡ some false))
depth_limit_rule-IsTooDeep_iff_example = depth_limit_rule-IsTooDeep_iff cyclic 1 deep_query

-- Two root fields in an inline fragment count as one.
abbrev leaf : Selection
leaf = field_node no_selection

root_fields_limit_rule_test :
    root_fields_limit_rule 1 (
      one_selection
        (inline_fragment (one_selection leaf (one_selection leaf no_selection)))
        no_selection)
    ≡ false
unfolding root_fields_limit_rule count_selections
root_fields_limit_rule_test = refl
