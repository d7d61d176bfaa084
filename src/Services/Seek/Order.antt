-- ===== src/Services/Seek/Order.antt =====
-- src/bank_ods/services/pagination.py: the range query beside the order of the sort.
use mathlib.Core.Path.{subst}
use bank_ods_unified_api.Prelude.{
  Ordering, ◌≡◌, ◌≢◌, refl, sym, ◌∙◌, String, Bool, false, ◌&&◌, ◌||◌, none, some, List, [], ◌∷◌,
  All, arith, inl, inr, Bool-cases, Option-cases, str_eq, length, map, ◌==◌, true,
}
use bank_ods_unified_api.Prelude.Dict.{insert, lookup, lookup-insert}
use bank_ods_unified_api.Services.Cursor.{SortSpec, Direction, ascending, descending}
use bank_ods_unified_api.Services.Seek.{
  ValueOrder, Doc, Condition, equals, Clause, get_path, keys_of, beyond, clauses, seek_predicate,
  is_lt, is_eq, is_gt, holds, satisfies_all, satisfies_any,
}

-- No field is in the sort twice.
abbrev pub Distinct : SortSpec → Type 0
Distinct [] = Unit
Distinct ((f, dir) ∷ sort) = All (λ s. str_eq f s.0 ≡ false) sort × Distinct sort

abbrev pub flip : Ordering → Ordering
flip Ordering.lt = Ordering.gt
flip Ordering.eq = Ordering.eq
flip Ordering.gt = Ordering.lt

abbrev pub turned : Direction → Ordering → Ordering
turned ascending o = o
turned descending o = flip o

abbrev pub then_by : Ordering → Ordering → Ordering
then_by Ordering.eq o = o
then_by o _ = o

pub some_not_none : {A : Type 0} {a : A} → some a ≢ none
some_not_none h = cc

pub some_injective : {A : Type 0} {a b : A} → some a ≡ some b → a ≡ b
some_injective h = cc

ascending_case : (c o : Ordering) → (is_gt c || (is_eq c && is_gt o)) ≡ is_gt (then_by c o)
ascending_case Ordering.lt o = refl
ascending_case Ordering.eq o = refl
ascending_case Ordering.gt o = refl

descending_case : (c o : Ordering) → (is_lt c || (is_eq c && is_gt o)) ≡ is_gt (then_by (flip c) o)
descending_case Ordering.lt o = refl
descending_case Ordering.eq o = refl
descending_case Ordering.gt o = refl

distribute : (p a b c : Bool) → (p && a || p && b && c) ≡ (p && (a || b && c))
distribute p a b c = ground arith

map-cons-injective :
    {A B : Type 0} (f : A → B) (a b : A) (xs ys : List A)
    → map f (a ∷ xs) ≡ map f (b ∷ ys)
    → (f a ≡ f b) × (map f xs ≡ map f ys)
map-cons-injective f a b xs ys h = (cc, cc)

module _ {V : Type 0} (order : ValueOrder V) where
  -- The order of the sort, on the values of its fields.
  unfoldable pub compare_keys : SortSpec → List V → List V → Ordering
  compare_keys ((f, dir) ∷ sort) (v ∷ vs) (w ∷ ws) =
      then_by (turned dir (order.compare v w)) (compare_keys sort vs ws)
  compare_keys _ _ _ = Ordering.eq

  satisfies_all-insert :
      (f : String) (c : Condition V) (clause : Clause V) (d : Doc V)
      → lookup f clause ≡ none
      → satisfies_all order (insert f c clause) d
        ≡ (satisfies_all order clause d && holds order c (get_path f d))
  unfolding satisfies_all insert lookup
  satisfies_all-insert f c [] d h = ground arith
  satisfies_all-insert f c ((g, k) ∷ clause) d h = elim (Bool-cases (str_eq g f)) [
    | inl e ↦ absurd (some_not_none (rw (e, lookup) at h))
    | inr e ↦ rw (e) (ground (arith, satisfies_all-insert f c clause d (rw (e) at h)))
  ]

  abbrev pub Fresh : Clause V → SortSpec → Type 0
  Fresh clause sort = All (λ s. lookup s.0 clause ≡ none) sort

  Fresh-insert :
      (f : String) (c : Condition V) (clause : Clause V) (sort : SortSpec)
      → All (λ s. str_eq f s.0 ≡ false) sort
      → Fresh clause sort
      → Fresh (insert f c clause) sort
  Fresh-insert f c clause [] n h = tt
  Fresh-insert f c clause ((g, dir) ∷ sort) (n, ns) (h, hs) =
      (lookup-insert f g c clause ∙ rw (n) h, Fresh-insert f c clause sort ns hs)

  holds-compare :
      (dir : Direction) (k v : V) (o : Ordering)
      → order.bracket k ≡ order.bracket v
      → (holds order (beyond dir v) (some k) || (holds order (equals v) (some k) && is_gt o))
        ≡ is_gt (then_by (turned dir (order.compare k v)) o)
  holds-compare ascending k v o b =
      let same : (order.bracket k == order.bracket v) ≡ true = ground arith in
      rw (same) (ascending_case (order.compare k v) o)
  holds-compare descending k v o b =
      let same : (order.bracket k == order.bracket v) ≡ true = ground arith in
      rw (same) (descending_case (order.compare k v) o)

  pub keys_of-cons :
      (f : String) (dir : Direction) (sort : SortSpec) (d : Doc V) (ks : List V)
      → keys_of ((f, dir) ∷ sort) d ≡ some ks
      → (k : V) × ((rest : List V) × (get_path f d ≡ some k)
          × (keys_of sort d ≡ some rest)
          × (ks ≡ k ∷ rest))
  unfolding keys_of
  keys_of-cons f dir sort d ks h = elim (Option-cases (get_path f d)) [
    | inl e ↦ absurd (some_not_none (sym h ∙ rw (e, keys_of) refl))
    | inr (k, e) ↦ elim (Option-cases (keys_of sort d)) [
      | inl e' ↦ absurd (some_not_none (sym h ∙ rw (e, e', keys_of) refl))
      | inr (rest, e') ↦ (k, (rest, e, e', some_injective (sym h ∙ rw (e, e', keys_of) refl)))
    ]
  ]

  Fresh-nil : (sort : SortSpec) → Fresh [] sort
  unfolding lookup
  Fresh-nil [] = tt
  Fresh-nil (s ∷ sort) = (refl, Fresh-nil sort)

  clauses-compare_keys :
      (sort : SortSpec) (ks values : List V) (prefix : Clause V) (d : Doc V)
      → keys_of sort d ≡ some ks
      → length values ≡ length sort
      → map order.bracket ks ≡ map order.bracket values
      → Fresh prefix sort
      → Distinct sort
      → satisfies_any order (clauses prefix sort values) d
        ≡ (satisfies_all order prefix d && is_gt (compare_keys sort ks values))
  unfolding clauses satisfies_any compare_keys keys_of
  clauses-compare_keys [] ks values prefix d h n b fresh distinct = ground arith
  clauses-compare_keys ((f, dir) ∷ sort) ks [] prefix d h n b fresh distinct = absurd (omega arith)
  clauses-compare_keys ((f, dir) ∷ sort) ks (v ∷ values) prefix d h n b (new, fresh)
        (ne, distinct) =
      let (k, (rest, e, e', split)) = keys_of-cons f dir sort d ks h in
      let (bk, bs) =
        map-cons-injective order.bracket k v rest values
          (subst (λ z. map order.bracket z ≡ map order.bracket (v ∷ values)) split b) in
      let ih =
        clauses-compare_keys sort rest values (insert f (equals v) prefix) d e' (omega arith) bs
          (Fresh-insert f (equals v) prefix sort ne fresh) distinct in
      rw
        (
          split,
          satisfies_all-insert f (beyond dir v) prefix d new,
          ih,
          satisfies_all-insert f (equals v) prefix d new,
          e,
          sym (holds-compare dir k v (compare_keys sort rest values) bk),
        )
        (distribute (satisfies_all order prefix d) _ _ _)

  -- A document is selected exactly when its keys come strictly behind those of the cursor in the
  -- order of the sort, if it has all the keys, each is of the type bracket of the value that the
  -- cursor has for its field, and the sort has no field twice.
  pub seek_predicate-compare_keys :
      (sort : SortSpec) (ks values : List V) (d : Doc V)
      → keys_of sort d ≡ some ks
      → length values ≡ length sort
      → map order.bracket ks ≡ map order.bracket values
      → Distinct sort
      → satisfies_any order (seek_predicate sort values) d ≡ is_gt (compare_keys sort ks values)
  unfolding seek_predicate satisfies_all
  seek_predicate-compare_keys sort ks values d h n b distinct =
      clauses-compare_keys sort ks values [] d h n b (Fresh-nil sort) distinct
