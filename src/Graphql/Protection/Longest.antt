-- ===== src/Graphql/Protection/Longest.antt =====
-- src/bank_ods/graphql/protection.py: `_max_depth` ends, and finds the longest chain of nested fields.
use mathlib.Core.Path.{subst}
use bank_ods_unified_api.Prelude.{
  ℕ, zero, suc, ◌+◌, ◌≤◌, ◌<◌, ◌≡◌, ◌↔◌, refl, max, ltb, String, true, false, Option, none, some,
  List, [], ◌∷◌, length, if-cases, Bool-cases, inl, inr, arith, sym, ap, ◌∙◌, ◌⊎◌,
}
use bank_ods_unified_api.Prelude.Dict.{lookup, contains}
use bank_ods_unified_api.Graphql.Protection.{
  Selection, Selections, field_node, inline_fragment, fragment_spread, no_selection, one_selection,
  Fragments, max_of, Spread, depth_of_selection, depth_of_selections, depth_of_fragment, follow,
  max_depth_of, exceeds, depth_limit_rule,
}
use bank_ods_unified_api.Graphql.Protection.Depth.{
  Chain, stop, behind, into, inline, spread, unvisited, unvisited-lt, none-zero, widen, split,
  IsLongest, IsLongestOf, under_field, under_inline, under_spread,
}

module _ (fragments : Fragments) where
  max_of-some :
      (d m k : ℕ) (a b : Option ℕ)
      → a ≡ some (d + m)
      → b ≡ some (d + k)
      → max_of a b ≡ some (d + max m k)
  max_of-some d m k a b e f = rw (e, f) (ap some (ground arith))

  -- A chain in either is not longer than the longer one of the two.
  under_either :
      (v : List String) (x : Selection) (rest : Selections) (m k n : ℕ)
      → ((i : ℕ) → Chain fragments v (one_selection x no_selection) i → i ≤ m)
      → ((i : ℕ) → Chain fragments v rest i → i ≤ k)
      → Chain fragments v (one_selection x rest) n
      → n ≤ max m k
  under_either v x rest m k n u w c = elim (split fragments v x rest n c) [
    | inl p ↦ let q = u n p in ground arith
    | inr p ↦ let q = w n p in ground arith
  ]

  longer :
      (v : List String) (x : Selection) (rest : Selections) (m k : ℕ)
      → Chain fragments v (one_selection x no_selection) m
      → Chain fragments v rest k
      → Chain fragments v (one_selection x rest) (max m k)
  longer v x rest m k c g = elim (Bool-cases (ltb m k)) [
    | inl l ↦
        let e : k ≡ max m k = ground arith in
        subst (Chain fragments v (one_selection x rest)) e (behind g)
    | inr l ↦
        let e : m ≡ max m k = ground arith in
        subst (Chain fragments v (one_selection x rest)) e (widen fragments v x rest m c)
  ]

  max-IsLongest :
      (v : List String) (x : Selection) (rest : Selections) (d : ℕ) (a b : Option ℕ)
      → IsLongestOf fragments v x d a
      → IsLongest fragments v rest d b
      → IsLongest fragments v (one_selection x rest) d (max_of a b)
  max-IsLongest v x rest d a b (m, (e, c, u)) (k, (f, g, w)) = (
    max m k,
    (max_of-some d m k a b e f, longer v x rest m k c g, λ n. under_either v x rest m k n u w),
  )

  module _ (v : List String) (visit : Spread)
      (good : (name : String) (d : ℕ)
        → IsLongestOf fragments v (fragment_spread name) d (visit name d v)) where
    mutual
      unfolding depth_of_selection depth_of_selections

      depth_of_selection-IsLongest :
          (x : Selection) (d : ℕ) → IsLongestOf fragments v x d (depth_of_selection visit v x d)
      depth_of_selection-IsLongest (field_node s) d =
          let (m, (e, c, u)) = depth_of_selections-IsLongest s (d + 1) in
          (suc m, (e ∙ ap some (omega arith), into c, λ n. under_field fragments v s m n u))
      depth_of_selection-IsLongest (inline_fragment s) d =
          let (m, (e, c, u)) = depth_of_selections-IsLongest s d in
          (m, (e, inline c, λ n. under_inline fragments v s m n u))
      depth_of_selection-IsLongest (fragment_spread name) d = good name d

      depth_of_selections-IsLongest :
          (s : Selections) (d : ℕ) → IsLongest fragments v s d (depth_of_selections visit v s d)
      depth_of_selections-IsLongest no_selection d =
          (0, (ap some (omega arith), stop, λ n c. omega (arith, none-zero fragments v n c)))
      depth_of_selections-IsLongest (one_selection x rest) d =
          max-IsLongest v x rest d (depth_of_selection visit v x d)
            (depth_of_selections visit v rest d) (depth_of_selection-IsLongest x d)
            (depth_of_selections-IsLongest rest d)

  nothing-IsLongest :
      (v : List String) (name : String) (d : ℕ)
      → ((s : Selections) → contains v name ≡ false → lookup name fragments ≡ some s → true ≡ false)
      → IsLongestOf fragments v (fragment_spread name) d (some d)
  nothing-IsLongest v name d never = (
    0,
    (
      ap some (omega arith),
      stop,
      λ n. under_spread fragments v name 0 n (λ s k new found c. let r = never s new found in cc),
    ),
  )

  fragment-IsLongest :
      (v : List String) (name : String) (d : ℕ) (visit : Selections → Option ℕ)
      (l : Option Selections)
      → lookup name fragments ≡ l
      → contains v name ≡ false
      → ((s : Selections) → l ≡ some s → IsLongest fragments (name ∷ v) s d (visit s))
      → IsLongestOf fragments v (fragment_spread name) d (depth_of_fragment l visit d)
  fragment-IsLongest v name d visit none e new good =
      nothing-IsLongest v name d (λ s new' found. cc)
  fragment-IsLongest v name d visit (some s) e new good =
      let (m, (f, c, u)) = good s refl in
      (
        m,
        (
          f,
          spread new e c,
          λ n. under_spread fragments v name m n (λ t k new' found c'.
              let same : t ≡ s = cc in u k (subst (λ r. Chain fragments (name ∷ v) r k) same c')),
        ),
      )

  follow-IsLongest :
      (v : List String) (name : String) (d : ℕ) (visit : Selections → ℕ → List String → Option ℕ)
      → ((s : Selections)
          → contains v name ≡ false
          → lookup name fragments ≡ some s
          → IsLongest fragments (name ∷ v) s d (visit s d (name ∷ v)))
      → IsLongestOf fragments v (fragment_spread name) d (follow fragments visit name d v)
  follow-IsLongest v name d visit good =
      if-cases (IsLongestOf fragments v (fragment_spread name) d) (contains v name) _ _
        (λ old. nothing-IsLongest v name d (λ s new found. sym old ∙ new))
        (λ new.
          fragment-IsLongest v name d (λ s. visit s d (name ∷ v)) (lookup name fragments) refl new
            (λ s. good s new))

  max_depth_of-IsLongest :
      (fuel : ℕ) (s : Selections) (d : ℕ) (v : List String)
      → unvisited fragments v < fuel
      → IsLongest fragments v s d (max_depth_of fragments fuel s d v)
  unfolding max_depth_of
  max_depth_of-IsLongest zero s d v h = absurd (omega arith)
  max_depth_of-IsLongest (suc fuel) s d v h =
      depth_of_selections-IsLongest v
        (follow fragments (λ t d' v'. max_depth_of fragments fuel t d' v'))
        (λ name d'.
          follow-IsLongest v name d' (λ t d'' v'. max_depth_of fragments fuel t d'' v')
            (λ t new found.
              let fewer = unvisited-lt fragments name v t new found in
              max_depth_of-IsLongest fuel t d' (name ∷ v) (omega arith)))
        s d

unvisited-length :
    (fragments : Fragments) (v : List String) → unvisited fragments v ≤ length fragments
unfolding unvisited
unvisited-length [] v = omega arith
unvisited-length (f ∷ fragments) v = ground (arith, unvisited-length fragments v)

abbrev pub IsTooDeep : Fragments → ℕ → Selections → Type 0
IsTooDeep fragments limit operation = (n : ℕ) × ((limit < n) × Chain fragments [] operation n)

exceeds-IsTooDeep_iff :
    (fragments : Fragments) (limit : ℕ) (operation : Selections) (x : Option ℕ)
    → IsLongest fragments [] operation 0 x
    → ((exceeds fragments limit x ≡ some true) ↔ IsTooDeep fragments limit operation)
      × ((exceeds fragments limit x ≡ some true) ⊎ (exceeds fragments limit x ≡ some false))
exceeds-IsTooDeep_iff fragments limit operation x (m, (e, c, u)) = rw e (
  (
    λ h. let b : ltb limit (0 + m) ≡ true = cc in (m, (ground arith, c)),
    λ (n, (h, k)). let q = u n k in ap some (ground arith),
  ),
  elim (Bool-cases (ltb limit (0 + m))) [ inl b ↦ inl (ap some b) | inr b ↦ inr (ap some b) ],
)

-- The depth rule reports an error exactly if the operation has a chain of more nested fields than
-- the limit, in which no fragment is spread inside itself; it has an answer on every query, those
-- with cyclic fragments included.
pub depth_limit_rule-IsTooDeep_iff :
    (fragments : Fragments) (limit : ℕ) (operation : Selections)
    → ((depth_limit_rule fragments limit operation ≡ some true)
        ↔ IsTooDeep fragments limit operation)
      × ((depth_limit_rule fragments limit operation ≡ some true)
          ⊎ (depth_limit_rule fragments limit operation ≡ some false))
unfolding depth_limit_rule
depth_limit_rule-IsTooDeep_iff fragments limit operation =
    let few = unvisited-length fragments [] in
    exceeds-IsTooDeep_iff fragments limit operation
      (max_depth_of fragments (suc (length fragments)) operation 0 [])
      (max_depth_of-IsLongest fragments (suc (length fragments)) operation 0 [] (omega arith))
