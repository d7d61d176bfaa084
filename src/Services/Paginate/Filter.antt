-- ===== src/Services/Paginate/Filter.antt =====
-- Selecting, taking and the last element, for lists.
use bank_ods_unified_api.Prelude.{
  ℕ, suc, zero, ◌≤◌, ◌<◌, ◌≡◌, refl, ap, Bool, true, false, ◌&&◌, some, List, [], ◌∷◌, ◌++◌, length,
  take, drop, if◌then◌else◌, All, Bool-cases, inl, inr, arith,
}
use bank_ods_unified_api.Services.Paginate.{filter, last_of}

module _ {A : Type 0} where
  pub filter-and :
      (p q : A → Bool) (xs : List A) → filter (λ x. p x && q x) xs ≡ filter q (filter p xs)
  unfolding filter
  filter-and p q [] = refl
  filter-and p q (x ∷ xs) = elim (Bool-cases (p x)) [
    | inl e ↦ rw (e) (ap (λ ys. if q x then x ∷ ys else ys) (filter-and p q xs))
    | inr e ↦ rw (e) (filter-and p q xs)
  ]

  pub filter-none : (p : A → Bool) (xs : List A) → All (λ x. p x ≡ false) xs → filter p xs ≡ []
  unfolding filter
  filter-none p [] h = refl
  filter-none p (x ∷ xs) (h, hs) = rw (h) (filter-none p xs hs)

  pub filter-All : (p : A → Bool) (xs : List A) → All (λ x. p x ≡ true) xs → filter p xs ≡ xs
  unfolding filter
  filter-All p [] h = refl
  filter-All p (x ∷ xs) (h, hs) = rw (h) (ap (λ ys. x ∷ ys) (filter-All p xs hs))

  pub All-filter : (P : A → Type 0) (p : A → Bool) (xs : List A) → All P xs → All P (filter p xs)
  unfolding filter
  All-filter P p [] h = tt
  All-filter P p (x ∷ xs) (h, hs) = elim (Bool-cases (p x)) [
    | inl e ↦ rw (e) (h, All-filter P p xs hs)
    | inr e ↦ rw (e) (All-filter P p xs hs)
  ]

  -- Every element is related to all that follow it.
  abbrev pub Sorted : (A → A → Type 0) → List A → Type 0
  Sorted R [] = Unit
  Sorted R (x ∷ xs) = All (R x) xs × Sorted R xs

  pub Sorted-filter :
      (R : A → A → Type 0) (p : A → Bool) (xs : List A) → Sorted R xs → Sorted R (filter p xs)
  unfolding filter
  Sorted-filter R p [] h = tt
  Sorted-filter R p (x ∷ xs) (h, hs) = elim (Bool-cases (p x)) [
    | inl e ↦ rw (e) (All-filter (R x) p xs h, Sorted-filter R p xs hs)
    | inr e ↦ rw (e) (Sorted-filter R p xs hs)
  ]

  pub All-right : (P : A → Type 0) (xs ys : List A) → All P (xs ++ ys) → All P ys
  All-right P [] ys h = h
  All-right P (x ∷ xs) ys (h, hs) = All-right P xs ys hs

  pub take-take-suc : (n : ℕ) (xs : List A) → take n (take (suc n) xs) ≡ take n xs
  take-take-suc zero xs = refl
  take-take-suc (suc n) [] = refl
  take-take-suc (suc n) (x ∷ xs) = ap (λ ys. x ∷ ys) (take-take-suc n xs)

  -- The last of the first n elements, and what is behind it.
  pub last_of-take :
      (n : ℕ) (xs : List A)
      → 1 ≤ n
      → n < length xs
      → (init : List A) × ((l : A) × (last_of (take n xs) ≡ some l) × (xs ≡ init ++ l ∷ drop n xs))
  unfolding last_of
  last_of-take zero xs one n = absurd (omega arith)
  last_of-take (suc n) [] one h = absurd (omega arith)
  last_of-take (suc zero) (x ∷ xs) one h = ([], (x, refl, refl))
  last_of-take (suc (suc n)) (x ∷ []) one h = absurd (omega arith)
  last_of-take (suc (suc n)) (x ∷ y ∷ xs) one h =
      let (init, (l, e, s)) = last_of-take (suc n) (y ∷ xs) (omega arith) (omega arith) in
      (x ∷ init, (l, e, ap (λ zs. x ∷ zs) s))
