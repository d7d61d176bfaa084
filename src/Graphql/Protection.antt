-- ===== src/Graphql/Protection.antt =====
-- src/bank_ods/graphql/protection.py: the limits on the depth and on the root fields of a query. Of a
-- query its selections are modelled; a node without a selection set has no selections, which comes to
-- the same. The fuel bounds how deep spreads stand in spread fragments; `none` is running out of it.
pub mod Depth
pub mod Longest
use bank_ods_unified_api.Prelude.{
  ℕ, zero, suc, ◌+◌, max, ltb, String, Bool, true, false, Option, none, some, List, [], ◌∷◌, length,
  if◌then◌else◌,
}
use bank_ods_unified_api.Prelude.Dict.{Dict, lookup, contains}

mutual
  pub data Selection : Type 0 where
    field_node inline_fragment : Selections → Selection
    fragment_spread : String → Selection

  pub data Selections : Type 0 where
    no_selection : Selections
    one_selection : Selection → Selections → Selections

abbrev pub Fragments : Type 0
Fragments = Dict Selections

-- `max(deepest, ...)`
abbrev pub max_of : Option ℕ → Option ℕ → Option ℕ
max_of none y = none
max_of (some x) none = none
max_of (some x) (some y) = some (max x y)

-- What a spread comes to, by the name of its fragment, the depth and the visited fragments.
abbrev pub Spread : Type 0
Spread = String → ℕ → List String → Option ℕ

module _ (spread : Spread) (visited : List String) where
  -- The loop over the selections, whose start is `depth`.
  unfoldable mutual
    pub depth_of_selection : Selection → ℕ → Option ℕ
    depth_of_selection (field_node s) depth = depth_of_selections s (depth + 1)
    depth_of_selection (inline_fragment s) depth = depth_of_selections s depth
    depth_of_selection (fragment_spread name) depth = spread name depth visited

    pub depth_of_selections : Selections → ℕ → Option ℕ
    depth_of_selections no_selection depth = some depth
    depth_of_selections (one_selection selection rest) depth =
        max_of (depth_of_selection selection depth) (depth_of_selections rest depth)

abbrev pub depth_of_fragment : Option Selections → (Selections → Option ℕ) → ℕ → Option ℕ
depth_of_fragment none visit depth = some depth
depth_of_fragment (some fragment) visit depth = visit fragment

module _ (fragments : Fragments) where
  -- A fragment that is visited, or is not there, adds nothing.
  abbrev pub follow : (Selections → ℕ → List String → Option ℕ) → Spread
  follow visit name depth visited =
      if contains visited name
      then some depth
      else depth_of_fragment (lookup name fragments) (λ s. visit s depth (name ∷ visited)) depth

  -- `_max_depth`
  unfoldable pub max_depth_of : ℕ → Selections → ℕ → List String → Option ℕ
  max_depth_of zero s depth visited = none
  max_depth_of (suc fuel) s depth visited =
      depth_of_selections (follow (λ t d v. max_depth_of fuel t d v)) visited s depth

  abbrev pub exceeds : ℕ → Option ℕ → Option Bool
  exceeds limit none = none
  exceeds limit (some depth) = some (ltb limit depth)

  -- Whether `DepthLimitRule` reports an error on an operation.
  unfoldable pub depth_limit_rule : ℕ → Selections → Option Bool
  depth_limit_rule max_depth operation =
      exceeds max_depth (max_depth_of (suc (length fragments)) operation 0 [])

unfoldable pub count_selections : Selections → ℕ
count_selections no_selection = 0
count_selections (one_selection selection rest) = suc (count_selections rest)

-- Whether `RootFieldsLimitRule` reports an error on an operation.
unfoldable pub root_fields_limit_rule : ℕ → Selections → Bool
root_fields_limit_rule max_root_fields operation = ltb max_root_fields (count_selections operation)
