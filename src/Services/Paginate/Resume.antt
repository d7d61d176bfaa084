-- ===== src/Services/Paginate/Resume.antt =====
-- src/bank_ods/services/pagination.py: the seek predicate in a sorted listing.
use bank_ods_unified_api.Prelude.{
  ℕ, suc, map, Ordering, ◌≡◌, ◌≢◌, refl, ap, ◌∙◌, Bool, true, some, List, [], ◌∷◌, ◌++◌, length,
  All, Ordering-cases, inl, inr,
}
use bank_ods_unified_api.Services.Cursor.{SortSpec, Direction, ascending, descending}
use bank_ods_unified_api.Services.Seek.{
  ValueOrder, Doc, keys_of, seek_predicate, satisfies_any, is_gt,
}
use bank_ods_unified_api.Services.Seek.Order.{
  Distinct, compare_keys, then_by, turned, seek_predicate-compare_keys, keys_of-cons,
  some_injective,
}
use bank_ods_unified_api.Services.Paginate.{filter}
use bank_ods_unified_api.Services.Paginate.Filter.{Sorted, filter-All}

gt_not_lt : Ordering.gt ≢ Ordering.lt
gt_not_lt h = cc

module _ {V : Type 0} (order : ValueOrder V) where
  pub length-keys_of :
      (sort : SortSpec) (d : Doc V) (ks : List V)
      → keys_of sort d ≡ some ks
      → length ks ≡ length sort
  unfolding keys_of
  length-keys_of [] d ks h = rw⁻¹ (some_injective h) refl
  length-keys_of ((f, dir) ∷ sort) d ks h =
      let (k, (rest, e, e', split)) = keys_of-cons order f dir sort d ks h in
      rw (split) (ap suc (length-keys_of sort d rest e'))

  compare_keys_self : (sort : SortSpec) (ks : List V) → compare_keys order sort ks ks ≡ Ordering.eq
  unfolding compare_keys
  compare_keys_self [] ks = refl
  compare_keys_self ((f, dir) ∷ sort) [] = refl
  compare_keys_self ((f, ascending) ∷ sort) (k ∷ ks) =
      rw (order.compare_self k) (compare_keys_self sort ks)
  compare_keys_self ((f, descending) ∷ sort) (k ∷ ks) =
      rw (order.compare_self k) (compare_keys_self sort ks)

  -- One step of the comparison, in either direction.
  then_by_flip :
      (dir : Direction) (a b : V) (p q : Ordering)
      → (p ≡ Ordering.lt → q ≡ Ordering.gt)
      → then_by (turned dir (order.compare a b)) p ≡ Ordering.lt
      → then_by (turned dir (order.compare b a)) q ≡ Ordering.gt
  then_by_flip ascending a b p q h e = elim (Ordering-cases (order.compare a b)) [
    | inl l ↦ rw (order.compare_flip a b l) refl
    | inr (inl l) ↦ rw (order.compare_eq_flip a b l) (h (rw (l) at e))
    | inr (inr l) ↦ absurd (gt_not_lt (rw (l) at e))
  ]
  then_by_flip descending a b p q h e = elim (Ordering-cases (order.compare a b)) [
    | inl l ↦ absurd (gt_not_lt (rw (l) at e))
    | inr (inl l) ↦ rw (order.compare_eq_flip a b l) (h (rw (l) at e))
    | inr (inr l) ↦ rw (order.compare_unflip a b l) refl
  ]

  compare_keys_flip :
      (sort : SortSpec) (ks ls : List V)
      → compare_keys order sort ks ls ≡ Ordering.lt
      → compare_keys order sort ls ks ≡ Ordering.gt
  unfolding compare_keys
  compare_keys_flip [] ks ls h = cc
  compare_keys_flip ((f, dir) ∷ sort) [] ls h = cc
  compare_keys_flip ((f, dir) ∷ sort) (k ∷ ks) [] h = cc
  compare_keys_flip ((f, dir) ∷ sort) (k ∷ ks) (l ∷ ls) h =
      then_by_flip dir k l _ _ (compare_keys_flip sort ks ls) h

  module _ (sort : SortSpec) where
    -- The document has a value at each field of the sort, of the type bracket that is given.
    abbrev pub Keyed : List ℕ → Doc V → Type 0
    Keyed brackets d =
        (ks : List V) × ((keys_of sort d ≡ some ks) × (map order.bracket ks ≡ brackets))

    -- The sort puts one document strictly before the other.
    abbrev pub Before : Doc V → Doc V → Type 0
    Before d e =
        (ks ls : List V)
        → keys_of sort d ≡ some ks
        → keys_of sort e ≡ some ls
        → compare_keys order sort ks ls ≡ Ordering.lt

  module _ (sort : SortSpec) (distinct : Distinct sort) where
    abbrev behind : List V → Doc V → Bool
    behind ls d = satisfies_any order (seek_predicate sort ls) d

    behind-is_gt :
        (d : Doc V) (ks ls : List V) (l : Doc V)
        → keys_of sort d ≡ some ks
        → keys_of sort l ≡ some ls
        → map order.bracket ks ≡ map order.bracket ls
        → behind ls d ≡ is_gt (compare_keys order sort ks ls)
    behind-is_gt d ks ls l h k b =
        seek_predicate-compare_keys order sort ks ls d h (length-keys_of sort l ls k) b distinct

    All-behind :
        (l : Doc V) (ls : List V) (rest : List (Doc V))
        → keys_of sort l ≡ some ls
        → All (Keyed sort (map order.bracket ls)) rest
        → All (Before sort l) rest
        → All (λ d. behind ls d ≡ true) rest
    All-behind l ls [] e k b = tt
    All-behind l ls (d ∷ rest) e ((ks, (h, t)), k) (b, bs) = (
      behind-is_gt d ks ls l h e t ∙ ap is_gt (compare_keys_flip sort ls ks (b ls ks e h)),
      All-behind l ls rest e k bs,
    )

    middle :
        (init : List (Doc V)) (l : Doc V) (rest : List (Doc V)) (P : Doc V → Type 0)
        → All P (init ++ l ∷ rest)
        → P l
    middle [] l rest P (h, hs) = h
    middle (d ∷ init) l rest P (h, hs) = middle init l rest P hs

    -- What is selected behind the document l of the listing is what follows it.
    pub filter-seek_predicate :
        (init : List (Doc V)) (l : Doc V) (rest : List (Doc V)) (ls : List V)
        → keys_of sort l ≡ some ls
        → All (Keyed sort (map order.bracket ls)) (init ++ l ∷ rest)
        → Sorted (Before sort) (init ++ l ∷ rest)
        → filter (satisfies_any order (seek_predicate sort ls)) (init ++ l ∷ rest) ≡ rest
    unfolding filter
    filter-seek_predicate [] l rest ls e (k, ks) (b, bs) =
        rw (behind-is_gt l ls ls l e e refl ∙ ap is_gt (compare_keys_self sort ls))
          (filter-All (behind ls) rest (All-behind l ls rest e ks b))
    filter-seek_predicate (d ∷ init) l rest ls e ((ks, (h, t)), k) (b, bs) =
        rw
          (behind-is_gt d ks ls l h e t ∙ ap is_gt (middle init l rest (Before sort d) b ks ls h e))
          (filter-seek_predicate init l rest ls e k bs)
