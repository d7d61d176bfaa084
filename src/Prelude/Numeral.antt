-- ===== src/Prelude/Numeral.antt =====
-- Python's decimal numerals: `str(n)`, `f"{n:0wd}"` and `int(s)`. The digits are the ASCII ones.
use Prim.Native.Nat.{ℕ, zero, suc, ◌+◌, ◌-◌, ◌*◌, ◌/◌, ◌%◌, ◌<◌}
use mathlib.Core.Path.{◌≡◌, refl, ◌∙◌, ap}
use mathlib.Core.Logic.{inl, inr}
use mathlib.Core.Bool.{Bool, true, false, ◌&&◌}
use mathlib.Core.List.{[], ◌∷◌, ◌++◌}
use mathlib.Core.Option.{Option, none, some}
use native.Mathlib.Omega.{arith}
use bank_ods_unified_api.Prelude.Tests.{leb, ltb, ◌==◌, if◌then◌else◌, Bool-cases}
use bank_ods_unified_api.Prelude.Lists.{length, replicate, All}
use bank_ods_unified_api.Prelude.Text.{Text, codes}
use bank_ods_unified_api.Prelude.Strip.{is_space, strip, rstrip, lstrip}
use bank_ods_unified_api.Prelude.Int.{ℤ, pos, negsuc, neg}

abbrev pub is_digit : ℕ → Bool
is_digit c = leb b'0' c && leb c b'9'

-- `s.isdigit()`
unfoldable pub all_digits : Text → Bool
all_digits [] = false
all_digits (c ∷ []) = is_digit c
all_digits (c ∷ d ∷ s) = is_digit c && all_digits (d ∷ s)

-- The value of digits in which single underscores may stand between two digits.
unfoldable pub digits_from : ℕ → Bool → Text → Option ℕ
digits_from n after_digit [] = if after_digit then some n else none
digits_from n after_digit (c ∷ s) = elim (is_digit c) [
  | true ↦ digits_from (n * 10 + (c - b'0')) true s
  | false ↦ elim (c == b'_' && after_digit) [ true ↦ digits_from n false s | false ↦ none ]
]

abbrev negated : Option ℕ → Option ℤ
negated none = none
negated (some n) = some (neg (pos n))

abbrev plain_int : Option ℕ → Option ℤ
plain_int none = none
plain_int (some n) = some (pos n)

signed : Text → Option ℤ
signed [] = none
signed (c ∷ s) =
    if c == b'-'
    then negated (digits_from 0 false s)
    else if c == b'+'
    then plain_int (digits_from 0 false s)
    else plain_int (digits_from 0 false (c ∷ s))

-- `int(s)`, where `none` is the ValueError.
unfoldable pub parse_int : Text → Option ℤ
unfolding signed strip digits_from
parse_int s = signed (strip s)

-- The digits of `n` in front of a text. The fuel is more than `n`, which a division by ten lowers.
show_onto : ℕ → ℕ → Text → Text
show_onto zero n s = s
show_onto (suc fuel) n s =
    let rest = show_onto fuel (n / 10) ((b'0' + n % 10) ∷ s) in
    if ltb n 10 then (b'0' + n) ∷ s else rest

-- `str(n)`
unfoldable pub show : ℕ → Text
unfolding show_onto
show n = show_onto (suc n) n []

-- `f"{n:0wd}"`
unfoldable pub show_padded : ℕ → ℕ → Text
unfolding show
show_padded w n = replicate (w - length (show n)) b'0' ++ show n

pub digits_from-digit :
    (n d : ℕ) (after : Bool) (s : Text)
    → d < 10
    → digits_from n after ((b'0' + d) ∷ s) ≡ digits_from (n * 10 + d) true s
unfolding digits_from
digits_from-digit n d after s h =
    let e : is_digit (b'0' + d) ≡ true = ground arith in
    let v : n * 10 + (b'0' + d - b'0') ≡ n * 10 + d = omega arith in rw (e, digits_from) (rw v)

digits_from-show_onto :
    (fuel n : ℕ) (s : Text)
    → n < fuel
    → digits_from 0 false (show_onto fuel n s) ≡ digits_from n true s
unfolding show_onto
digits_from-show_onto zero n s h = elim h [ ]
digits_from-show_onto (suc fuel) n s h = elim (Bool-cases (ltb n 10)) [
  | inl small ↦
      let v : 0 * 10 + n ≡ n = omega arith in
      rw (small, digits_from-digit 0 n false s (ground arith), v)
  | inr big ↦
      let v : n / 10 * 10 + n % 10 ≡ n = omega arith in
      rw (
        big,
        digits_from-show_onto fuel (n / 10) ((b'0' + n % 10) ∷ s) (ground arith),
        digits_from-digit (n / 10) (n % 10) true s (omega arith),
        v,
      )
]

pub digits_from-show : (n : ℕ) → digits_from 0 false (show n) ≡ some n
unfolding show digits_from
digits_from-show n = digits_from-show_onto (suc n) n [] (omega arith)

-- The text begins with a digit.
abbrev pub StartsWithDigit : Text → Type 0
StartsWithDigit [] = ⊥
StartsWithDigit (c ∷ s) = is_digit c ≡ true

show_onto-StartsWithDigit :
    (fuel n : ℕ) (s : Text) → n < fuel → StartsWithDigit (show_onto fuel n s)
unfolding show_onto
show_onto-StartsWithDigit zero n s h = elim h [ ]
show_onto-StartsWithDigit (suc fuel) n s h = elim (Bool-cases (ltb n 10)) [
  | inl small ↦ rw small (ground arith)
  | inr big ↦ rw big (show_onto-StartsWithDigit fuel (n / 10) _ (ground arith))
]

-- At the start of a number it does not matter what stood before it, if a digit follows.
digits_from-after :
    (n : ℕ) (s : Text) → StartsWithDigit s → digits_from n true s ≡ digits_from n false s
unfolding digits_from
digits_from-after n [] h = absurd h
digits_from-after n (c ∷ s) h = rw (h, digits_from)

-- Leading zeros do not change the value.
digits_from-zeros :
    (k : ℕ) (s : Text)
    → StartsWithDigit s
    → digits_from 0 false (replicate k b'0' ++ s) ≡ digits_from 0 false s
digits_from-zeros zero s h = refl
digits_from-zeros (suc k) s h =
    digits_from-digit 0 0 false (replicate k b'0' ++ s) (omega arith)
    ∙ digits_from-after 0 (replicate k b'0' ++ s) (starts k)
    ∙ digits_from-zeros k s h
  where
    starts : (j : ℕ) → StartsWithDigit (replicate j b'0' ++ s)
    starts zero = h
    starts (suc j) = refl

pub show-StartsWithDigit : (n : ℕ) → StartsWithDigit (show n)
unfolding show
show-StartsWithDigit n = show_onto-StartsWithDigit (suc n) n [] (omega arith)

pub digits_from-show_padded : (w n : ℕ) → digits_from 0 false (show_padded w n) ≡ some n
unfolding show_padded
digits_from-show_padded w n =
    digits_from-zeros (w - length (show n)) (show n) (show-StartsWithDigit n) ∙ digits_from-show n

-- Every character is a digit.
abbrev pub Digits : Text → Type 0
Digits s = All (λ c. is_digit c ≡ true) s

show_onto-Digits : (fuel n : ℕ) (s : Text) → Digits s → Digits (show_onto fuel n s)
unfolding show_onto
show_onto-Digits zero n s h = h
show_onto-Digits (suc fuel) n s h = elim (Bool-cases (ltb n 10)) [
  | inl small ↦ rw small (ground arith, h)
  | inr big ↦ rw big (show_onto-Digits fuel (n / 10) _ (ground arith, h))
]

pub show-Digits : (n : ℕ) → Digits (show n)
unfolding show
show-Digits n = show_onto-Digits (suc n) n [] tt

Digits-replicate : (k : ℕ) (s : Text) → Digits s → Digits (replicate k b'0' ++ s)
Digits-replicate zero s h = h
Digits-replicate (suc k) s h = (refl, Digits-replicate k s h)

pub show_padded-Digits : (w n : ℕ) → Digits (show_padded w n)
unfolding show_padded
show_padded-Digits w n = Digits-replicate (w - length (show n)) (show n) (show-Digits n)

-- The digit characters are no white space, so a numeral is not stripped.
pub is_digit-not-space : (c : ℕ) → is_digit c ≡ true → is_space c ≡ false
unfolding is_space
is_digit-not-space c h = ground arith

rstrip-Digits : (s : Text) → Digits s → rstrip is_space s ≡ s
unfolding rstrip
rstrip-Digits [] h = refl
rstrip-Digits (c ∷ s) h = rw (rstrip-Digits s h.1, is_digit-not-space c h.0) (ground arith)

lstrip-Digits : (s : Text) → Digits s → lstrip is_space s ≡ s
unfolding lstrip
lstrip-Digits [] h = refl
lstrip-Digits (c ∷ s) h = rw (is_digit-not-space c h.0)

pub strip-Digits : (s : Text) → Digits s → strip s ≡ s
unfolding strip
strip-Digits s h = ap (rstrip is_space) (lstrip-Digits s h) ∙ rstrip-Digits s h

signed-Digits :
    (s : Text) → Digits s → StartsWithDigit s → signed s ≡ plain_int (digits_from 0 false s)
unfolding signed
signed-Digits [] h d = absurd d
signed-Digits (c ∷ s) h d = ground (arith, h.0)

pub parse_int-Digits :
    (s : Text) → Digits s → StartsWithDigit s → parse_int s ≡ plain_int (digits_from 0 false s)
unfolding parse_int
parse_int-Digits s h d = rw (strip-Digits s h) (signed-Digits s h d)

-- `int(str(n))` is n, and so it is with leading zeros.
pub parse_int-show : (n : ℕ) → parse_int (show n) ≡ some (pos n)
parse_int-show n =
    parse_int-Digits (show n) (show-Digits n) (show-StartsWithDigit n)
    ∙ ap plain_int (digits_from-show n)

pub show_padded-StartsWithDigit : (w n : ℕ) → StartsWithDigit (show_padded w n)
unfolding show_padded
show_padded-StartsWithDigit w n = starts (w - length (show n)) (show n) (show-StartsWithDigit n)
  where
    starts : (j : ℕ) (s : Text) → StartsWithDigit s → StartsWithDigit (replicate j b'0' ++ s)
    starts zero s h = h
    starts (suc j) s h = refl

pub parse_int-show_padded : (w n : ℕ) → parse_int (show_padded w n) ≡ some (pos n)
parse_int-show_padded w n =
    parse_int-Digits (show_padded w n) (show_padded-Digits w n) (show_padded-StartsWithDigit w n)
    ∙ ap plain_int (digits_from-show_padded w n)

show_example : show_padded 6 407 ≡ codes "000407"
unfolding show_padded
show_example = refl

parse_example : parse_int (codes " -1_000 ") ≡ some (negsuc 999)
unfolding parse_int
parse_example = refl
