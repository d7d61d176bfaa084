-- ===== src/Graphql/Resolvers.antt =====
-- src/bank_ods/graphql/resolvers.py: the fields that resolvers are bound to, beside those of the schema,
-- since Ariadne rejects a resolver for a field that the schema does not have.
use bank_ods_unified_api.Prelude.{
  String, Bool, true, false, List, [], ◌∷◌, ◌++◌, map, drop, not, ◌&&◌, ◌==◌, ◌≡◌, refl,
  if◌then◌else◌,
}
use bank_ods_unified_api.Prelude.Text.{Text, codes}
use bank_ods_unified_api.Prelude.Strip.{starts_with}
use bank_ods_unified_api.Models.Base.{Entity}
use bank_ods_unified_api.Models.Registry.{
  entities_raw, get_field_name, list_field_name, snake, underscored,
}
use bank_ods_unified_api.Curation.Crm.Master.{lower}
use bank_ods_unified_api.Graphql.Static.{semantic_query_lines}
use bank_ods_unified_api.Graphql.Sdl.{get_lines, list_lines}

-- The keys of `_SEMANTIC_RESOLVERS`.
abbrev pub semantic_resolvers : List String
semantic_resolvers =
    "get_account" ∷ "list_accounts" ∷ "get_security" ∷ "get_security_by_sedol" ∷ "list_securities"
    ∷ "get_transaction" ∷ "get_transactions" ∷ "get_transaction_summary" ∷ "get_position"
    ∷ "get_positions" ∷ "get_position_history" ∷ "get_settlement" ∷ "get_settlement_status"
    ∷ "get_settlements" ∷ "get_settlement_fails" ∷ "get_cash_balance" ∷ "get_cash_balances"
    ∷ "get_projected_balance" ∷ []

-- `_register_raw_resolvers`, for the models in turn.
unfoldable pub raw_resolvers : List Entity → List Text
raw_resolvers [] = []
raw_resolvers (model ∷ models) = get_field_name model ∷ list_field_name model ∷ raw_resolvers models

-- The names that are bound, under the flags of the two tiers.
unfoldable pub bound_names : Bool → Bool → List Text
bound_names semantic_tier raw_tier =
    (if semantic_tier then map codes semantic_resolvers else [])
    ++ (if raw_tier then raw_resolvers entities_raw else [])

-- What stands before the arguments of a field.
unfoldable pub until_paren : Text → Text
until_paren [] = []
until_paren (c ∷ s) = let rest = until_paren s in if c == b'(' then [] else c ∷ rest

abbrev pub field_in : Text → List Text
field_in l =
    if starts_with (codes "  ") l && not (starts_with (codes "  #") l)
    then until_paren (drop 2 l) ∷ []
    else []

-- The names of the fields in lines of the schema; a comment has none.
unfoldable pub names_in : List Text → List Text
names_in [] = []
names_in (l ∷ ls) = field_in l ++ names_in ls

unfoldable pub raw_lines : List Entity → List Text
raw_lines [] = []
raw_lines (e ∷ es) = get_lines e ++ list_lines e ++ raw_lines es

abbrev pub schema_names : Bool → Bool → List Text
schema_names semantic_tier raw_tier =
    names_in (if semantic_tier then map codes semantic_query_lines else [])
    ++ names_in (if raw_tier then raw_lines entities_raw else [])

-- Under any flags, resolvers are bound to the fields of the schema, in its order.
pub bound_names-schema_names :
    (semantic_tier raw_tier : Bool)
    → bound_names semantic_tier raw_tier ≡ schema_names semantic_tier raw_tier
unfolding bound_names raw_resolvers names_in raw_lines until_paren get_field_name list_field_name
    snake underscored lower starts_with
bound_names-schema_names true true = refl
bound_names-schema_names true false = refl
bound_names-schema_names false true = refl
bound_names-schema_names false false = refl
