-- ===== src/Graphql/Protection/Depth.antt =====
-- src/bank_ods/graphql/protection.py: chains of nested fields.
use bank_ods_unified_api.Prelude.{
  ℕ, suc, ◌+◌, ◌≤◌, ◌<◌, ◌≡◌, refl, String, true, false, Option, some, List, [], ◌∷◌, if◌then◌else◌,
  str_eq, str_eq_iff, Bool-cases, inl, inr, arith, sym, ap, ◌∙◌, ◌⊎◌,
}
use bank_ods_unified_api.Prelude.Dict.{lookup, contains}
use bank_ods_unified_api.Graphql.Protection.{
  Selection, Selections, field_node, inline_fragment, fragment_spread, no_selection, one_selection,
  Fragments,
}

-- A chain of nested fields, which spreads no fragment inside itself: `Chain fragments visited s n`
-- has n fields, the first of them in s.
pub data Chain (fragments : Fragments) : List String → Selections → ℕ → Type 0 where
  stop : {v : List String} {s : Selections} → Chain fragments v s 0
  behind :
      {v : List String} {x : Selection} {rest : Selections} {n : ℕ}
      → Chain fragments v rest n
      → Chain fragments v (one_selection x rest) n
  into :
      {v : List String} {s rest : Selections} {n : ℕ}
      → Chain fragments v s n
      → Chain fragments v (one_selection (field_node s) rest) (suc n)
  inline :
      {v : List String} {s rest : Selections} {n : ℕ}
      → Chain fragments v s n
      → Chain fragments v (one_selection (inline_fragment s) rest) n
  spread :
      {v : List String} {name : String} {s rest : Selections} {n : ℕ}
      → contains v name ≡ false
      → lookup name fragments ≡ some s
      → Chain fragments (name ∷ v) s n
      → Chain fragments v (one_selection (fragment_spread name) rest) n

-- The fragments that are not visited.
unfoldable pub unvisited : Fragments → List String → ℕ
unvisited [] v = 0
unvisited ((name, s) ∷ fragments) v =
    let rest = unvisited fragments v in if contains v name then rest else suc rest

unvisited-le :
    (fragments : Fragments) (name : String) (v : List String)
    → unvisited fragments (name ∷ v) ≤ unvisited fragments v
unfolding unvisited contains
unvisited-le [] name v = omega arith
unvisited-le ((k, s) ∷ fragments) name v = ground (arith, unvisited-le fragments name v)

pub unvisited-lt :
    (fragments : Fragments) (name : String) (v : List String) (s : Selections)
    → contains v name ≡ false
    → lookup name fragments ≡ some s
    → unvisited fragments (name ∷ v) < unvisited fragments v
unfolding unvisited contains lookup
unvisited-lt [] name v s new found = cc
unvisited-lt ((k, t) ∷ fragments) name v s new found = elim (Bool-cases (str_eq k name)) [
  | inl e ↦
      let q : k ≡ name = (str_eq_iff k name).0 e in
      let old : contains v k ≡ false = ap (contains v) q ∙ new in
      let same : str_eq name k ≡ true = (str_eq_iff name k).1 (sym q) in
      ground (arith, unvisited-le fragments name v)
  | inr e ↦ let rest = unvisited-lt fragments name v s new (rw e at found) in ground arith
]

module _ (fragments : Fragments) where
  none-Chain :
      (v : List String) (s : Selections) (n : ℕ)
      → Chain fragments v no_selection n
      → Chain fragments v s n
  none-Chain v s _ stop = stop

  pub none-zero : (v : List String) (n : ℕ) → Chain fragments v no_selection n → n ≡ 0
  none-zero v _ stop = refl

  -- A chain in one selection is one in a list that starts with it.
  pub widen :
      (v : List String) (x : Selection) (rest : Selections) (n : ℕ)
      → Chain fragments v (one_selection x no_selection) n
      → Chain fragments v (one_selection x rest) n
  widen v x rest _ stop = stop
  widen v x rest n (behind c) = none-Chain v (one_selection x rest) n c
  widen v _ rest _ (into c) = into c
  widen v _ rest _ (inline c) = inline c
  widen v _ rest _ (spread new found c) = spread new found c

  pub split :
      (v : List String) (x : Selection) (rest : Selections) (n : ℕ)
      → Chain fragments v (one_selection x rest) n
      → Chain fragments v (one_selection x no_selection) n ⊎ Chain fragments v rest n
  split v x rest _ stop = inl stop
  split v x rest n (behind c) = inr c
  split v _ rest _ (into c) = inl (into c)
  split v _ rest _ (inline c) = inl (inline c)
  split v _ rest _ (spread new found c) = inl (spread new found c)

  -- The result is the depth and the length of the longest chain.
  abbrev pub IsLongest : List String → Selections → ℕ → Option ℕ → Type 0
  IsLongest v s d x =
      (m : ℕ) × ((x ≡ some (d + m))
        × Chain fragments v s m
        × ((n : ℕ) → Chain fragments v s n → n ≤ m))

  abbrev pub IsLongestOf : List String → Selection → ℕ → Option ℕ → Type 0
  IsLongestOf v x = IsLongest v (one_selection x no_selection)

  pub under_field :
      (v : List String) (s : Selections) (m n : ℕ)
      → ((k : ℕ) → Chain fragments v s k → k ≤ m)
      → Chain fragments v (one_selection (field_node s) no_selection) n
      → n ≤ suc m
  under_field v s m _ u stop = omega arith
  under_field v s m n u (behind c) = omega (arith, none-zero v n c)
  under_field v s m (suc n) u (into c) = omega (arith, u n c)

  pub under_inline :
      (v : List String) (s : Selections) (m n : ℕ)
      → ((k : ℕ) → Chain fragments v s k → k ≤ m)
      → Chain fragments v (one_selection (inline_fragment s) no_selection) n
      → n ≤ m
  under_inline v s m _ u stop = omega arith
  under_inline v s m n u (behind c) = omega (arith, none-zero v n c)
  under_inline v s m n u (inline c) = u n c

  pub under_spread :
      (v : List String) (name : String) (m n : ℕ)
      → ((s : Selections) (k : ℕ)
          → contains v name ≡ false
          → lookup name fragments ≡ some s
          → Chain fragments (name ∷ v) s k
          → k ≤ m)
      → Chain fragments v (one_selection (fragment_spread name) no_selection) n
      → n ≤ m
  under_spread v name m _ u stop = omega arith
  under_spread v name m n u (behind c) = omega (arith, none-zero v n c)
  under_spread v name m n u (spread new found c) = u _ n new found c
