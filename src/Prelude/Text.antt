-- ===== src/Prelude/Text.antt =====
-- Python's `str` where the program walks or orders it: a list of code points, ordered as Python
-- orders strings, by the first code point that differs.
use Prim.Native.Nat.{ℕ, compare, Ordering}
use Prim.Native.Char.{code}
use Prim.Native.String.{String}
use mathlib.Core.Path.{◌≡◌, refl}
use mathlib.Core.Logic.{◌↔◌}
use mathlib.Core.Bool.{Bool, true, false}
use mathlib.Core.List.{List, [], ◌∷◌}
use native.Mathlib.Omega.{arith}

abbrev pub Text : Type 0
Text = List ℕ

-- The code points of a literal.
abbrev pub codes : String → Text
codes String.[] = []
codes (String.◌∷◌ c s) = code c ∷ codes s

unfoldable pub compare_text : Text → Text → Ordering
compare_text [] [] = Ordering.eq
compare_text [] (b ∷ bs) = Ordering.lt
compare_text (a ∷ as') [] = Ordering.gt
compare_text (a ∷ as') (b ∷ bs) = elim (compare a b) [
  | Ordering.lt ↦ Ordering.lt
  | Ordering.eq ↦ compare_text as' bs
  | Ordering.gt ↦ Ordering.gt
]

-- `a < b` and `a == b` on strings.
abbrev pub lt_text : Text → Text → Bool
lt_text a b = elim (compare_text a b) [ Ordering.lt ↦ true | _ ↦ false ]

abbrev pub eq_text : Text → Text → Bool
eq_text a b = elim (compare_text a b) [ Ordering.eq ↦ true | _ ↦ false ]

pub compare_text_self : (a : Text) → compare_text a a ≡ Ordering.eq
unfolding compare_text
compare_text_self [] = refl
compare_text_self (a ∷ s) = ground (arith, compare_text_self s)

pub compare_text_eq : (a b : Text) → compare_text a b ≡ Ordering.eq → a ≡ b
unfolding compare_text
compare_text_eq [] [] h = refl
compare_text_eq [] (b ∷ t) h = cc
compare_text_eq (a ∷ s) [] h = cc
compare_text_eq (a ∷ s) (b ∷ t) h = ground (arith, compare_text_eq s t)

pub compare_text_flip :
    (a b : Text) → compare_text a b ≡ Ordering.lt → compare_text b a ≡ Ordering.gt
unfolding compare_text
compare_text_flip [] [] h = cc
compare_text_flip [] (b ∷ t) h = refl
compare_text_flip (a ∷ s) [] h = cc
compare_text_flip (a ∷ s) (b ∷ t) h = ground (arith, compare_text_flip s t)

pub compare_text_unflip :
    (a b : Text) → compare_text a b ≡ Ordering.gt → compare_text b a ≡ Ordering.lt
unfolding compare_text
compare_text_unflip [] [] h = cc
compare_text_unflip [] (b ∷ t) h = cc
compare_text_unflip (a ∷ s) [] h = refl
compare_text_unflip (a ∷ s) (b ∷ t) h = ground (arith, compare_text_unflip s t)

pub lt_text_trans : (a b c : Text) → lt_text a b ≡ true → lt_text b c ≡ true → lt_text a c ≡ true
unfolding compare_text
lt_text_trans [] [] c h k = cc
lt_text_trans [] (b ∷ t) [] h k = cc
lt_text_trans [] (b ∷ t) (c ∷ u) h k = refl
lt_text_trans (a ∷ s) [] c h k = cc
lt_text_trans (a ∷ s) (b ∷ t) [] h k = cc
lt_text_trans (a ∷ s) (b ∷ t) (c ∷ u) h k = ground (arith, lt_text_trans s t u)

pub lt_text_irrefl : (a : Text) → lt_text a a ≡ false
lt_text_irrefl a = ground (arith, compare_text_self a)

pub lt_text_asymm : (a b : Text) → lt_text a b ≡ true → lt_text b a ≡ false
lt_text_asymm a b h = ground (arith, compare_text_flip a b)

pub eq_text_iff : (a b : Text) → (eq_text a b ≡ true) ↔ (a ≡ b)
eq_text_iff a b =
    (λ h. compare_text_eq a b (ground arith), λ e. ground (arith, compare_text_self a))

pub eq_text_self : (a : Text) → eq_text a a ≡ true
eq_text_self a = (eq_text_iff a a).1 refl

-- Neither below nor above is equal.
pub eq_of_not_lt : (a b : Text) → lt_text a b ≡ false → lt_text b a ≡ false → a ≡ b
eq_of_not_lt a b h k = ground (arith, compare_text_eq a b, compare_text_unflip a b)

pub lt-ne : (a b : Text) → lt_text a b ≡ true → eq_text a b ≡ false
lt-ne a b h = ground arith

pub lt-ne_flip : (a b : Text) → lt_text a b ≡ true → eq_text b a ≡ false
lt-ne_flip a b h = ground (arith, compare_text_flip a b)

order_example : lt_text (codes "A10") (codes "A9") ≡ true
unfolding compare_text
order_example = refl
