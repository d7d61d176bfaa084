-- ===== src/Snapshot/Merge/Order.antt =====
-- `sort_merge` raises exactly when one of the two streams is not strictly ascending.
use bank_ods_unified_api.Prelude.{
  String, ◌≡◌, refl, true, Option, none, some, List, [], ◌∷◌, arith, All, Bool-cases, inl, inr,
}
use bank_ods_unified_api.Prelude.Text.{Text, lt_text, lt_text_trans}
use bank_ods_unified_api.Snapshot.Merge.{plain, Stream, end, raises, item, checked}

module _ {ℓ} {A : Type ℓ} (key_of : A → Text) where
  -- Every key is above the given one.
  abbrev pub Above : Text → List A → Type 0
  Above k xs = All (λ x. lt_text k (key_of x) ≡ true) xs

  -- Strictly ascending: each key is below all that follow.
  abbrev pub IsAscending : List A → Type 0
  IsAscending [] = Unit
  IsAscending (x ∷ xs) = Above (key_of x) xs × IsAscending xs

  abbrev pub Follows : Option Text → List A → Type 0
  Follows none xs = Unit
  Follows (some k) xs = Above k xs

  pub Above-trans : (j k : Text) (xs : List A) → lt_text j k ≡ true → Above k xs → Above j xs
  Above-trans j k [] h a = tt
  Above-trans j k (x ∷ xs) h a = (lt_text_trans j k (key_of x) h a.0, Above-trans j k xs h a.1)

abbrev pub Completes {ℓ} : {A : Type ℓ} → Stream A → Type 0
Completes end = Unit
Completes (raises label key) = ⊥
Completes (item x xs) = Completes xs

module _ {ℓ} {A : Type ℓ} (key_of : A → Text) (label : String) where
  pub checked-plain :
      (last : Option Text) (xs : List A)
      → Follows key_of last xs
      → IsAscending key_of xs
      → checked key_of label last (plain xs) ≡ plain xs
  unfolding checked
  checked-plain last [] f a = refl
  checked-plain none (x ∷ xs) f a = ground (arith, checked-plain (some (key_of x)) xs a.0 a.1)
  checked-plain (some k) (x ∷ xs) f a = ground (arith, checked-plain (some (key_of x)) xs a.0 a.1)

  pub checked-IsAscending :
      (last : Option Text) (xs : List A)
      → Completes (checked key_of label last (plain xs))
      → Follows key_of last xs × IsAscending key_of xs
  unfolding checked
  checked-IsAscending none [] c = (tt, tt)
  checked-IsAscending (some k) [] c = (tt, tt)
  checked-IsAscending none (x ∷ xs) c =
      let (f, a) = checked-IsAscending (some (key_of x)) xs c in (tt, (f, a))
  checked-IsAscending (some k) (x ∷ xs) c = elim (Bool-cases (lt_text k (key_of x))) [
    | inl above ↦
        let c' : Completes (checked key_of label (some (key_of x)) (plain xs)) = rw above at c in
        let (f, a) = checked-IsAscending (some (key_of x)) xs c' in
        ((above, Above-trans key_of k (key_of x) xs above f), (f, a))
    | inr below ↦ absurd (rw below at c)
  ]
