-- ===== src/Curation/Decode/Zoned.antt =====
-- src/ods_ingest/curation/decode.py: zoned decimals, written and read back.
use native.Mathlib.Decide.{dec_le}
use mathlib.Core.Path.{subst}
use bank_ods_unified_api.Prelude.{
  ℕ, suc, zero, ◌≤◌, ◌<◌, All, ◌+◌, ◌-◌, ◌≡◌, refl, sym, ap, ◌∙◌, Bool, true, false, some, List, [],
  ◌∷◌, ◌++◌, ltb, arith,
}
use bank_ods_unified_api.Prelude.Text.{Text}
use bank_ods_unified_api.Prelude.Strip.{is_space, strip, rstrip, lstrip, is_empty, rstrip-keep}
use bank_ods_unified_api.Prelude.Int.{ℤ, pos, negsuc, neg}
use bank_ods_unified_api.Prelude.Numeral.{
  is_digit, all_digits, show_padded, Digits, show_padded-Digits, strip-Digits, is_digit-not-space,
  digits_from-show_padded, StartsWithDigit, show_padded-StartsWithDigit,
}
use bank_ods_unified_api.Curation.Decode.{
  overpunch_pos, overpunch_neg, ok, index_of, char_at, split_last, by_tables, without_sign,
  with_sign, in_context, most_exact, magnitude, zoned_to_decimal, overpunched, decimal_to_zoned,
}

ltb-true : (a b : ℕ) → a < b → ltb a b ≡ true
ltb-true a b h = ground arith

all_digits-Digits : (s : Text) → Digits s → StartsWithDigit s → all_digits s ≡ true
unfolding all_digits
all_digits-Digits [] h d = absurd d
all_digits-Digits (c ∷ []) h d = h.0
all_digits-Digits (c ∷ e ∷ s) h d = rw (h.0, all_digits-Digits (e ∷ s) h.1 h.1.0) refl

not_empty : (s : Text) → StartsWithDigit s → is_empty s ≡ false
not_empty [] d = absurd d
not_empty (c ∷ s) d = refl

-- A number that the context holds is not rounded.
in_context-below : (n : ℕ) → n < most_exact → in_context n ≡ n
unfolding in_context
in_context-below n h = rw (ltb-true n most_exact h) refl

-- An unsigned value.
zoned_to_decimal-unsigned :
    (n digits scale : ℕ)
    → n < most_exact
    → zoned_to_decimal (decimal_to_zoned (pos n) digits scale false) scale false
      ≡ ok record { mantissa = pos n; scale = scale }
unfolding zoned_to_decimal decimal_to_zoned
zoned_to_decimal-unsigned n digits scale small =
    let exact = in_context-below n small in
    let s = show_padded (digits + scale) n in
    let all = show_padded-Digits (digits + scale) n in
    let starts = show_padded-StartsWithDigit (digits + scale) n in
    rw
      (
        exact,
        strip-Digits s all,
        not_empty s starts,
        all_digits-Digits s all starts,
        digits_from-show_padded (digits + scale) n,
        exact,
      )
      refl

range : ℕ → ℕ → List ℕ
range low zero = []
range low (suc k) = low ∷ range (suc low) k

by_range : (P : ℕ → Type 0) (k low d : ℕ) → low ≤ d → d < low + k → All P (range low k) → P d
unfolding range
by_range P zero low d h l all = absurd (omega arith)
by_range P (suc k) low d h l (here, there) = elim (dec_le (suc low) d) [
  | yes above ↦ by_range P k (suc low) d above (omega arith) there
  | no not_above ↦ let e : low ≡ d = omega arith in subst P e here
]

-- A statement on a digit character, from the ten characters.
by_digit : (P : ℕ → Type 0) (d : ℕ) → is_digit d ≡ true → All P (range b'0' 10) → P d
by_digit P d h all = by_range P 10 b'0' d (ground arith) (ground arith) all

split_last-append : (init : Text) (c : ℕ) → split_last (init ++ c ∷ []) ≡ some (init, c)
unfolding split_last
split_last-append [] c = refl
split_last-append (d ∷ init) c = rw (split_last-append init c) refl

-- A numeral ends with a digit.
Digits-last :
    (s : Text)
    → Digits s
    → StartsWithDigit s
    → (init : Text) × ((d : ℕ) × (s ≡ init ++ d ∷ []) × Digits init × (is_digit d ≡ true))
Digits-last [] h starts = absurd starts
Digits-last (c ∷ []) h starts = ([], (c, refl, tt, h.0))
Digits-last (c ∷ e ∷ s) h starts =
    let (init, (d, split, all, last)) = Digits-last (e ∷ s) h.1 h.1.0 in
    (c ∷ init, (d, ap (λ t. c ∷ t) split, (h.0, all), last))

-- What the tables make of a digit.
abbrev Overpunches : Text → Bool → ℕ → Type 0
Overpunches table negative d =
    let c = char_at (d - b'0') table in
    (is_space c ≡ false)
    × ((s init : Text)
        → by_tables s init c (index_of c overpunch_pos) (index_of c overpunch_neg)
          ≡ ok (init ++ d ∷ [], negative))

overpunch_pos-Overpunches : (d : ℕ) → is_digit d ≡ true → Overpunches overpunch_pos false d
unfolding range is_space char_at index_of
overpunch_pos-Overpunches d h = by_digit (Overpunches overpunch_pos false) d h (
  (refl, λ s init. refl),
  (
    (refl, λ s init. refl),
    (
      (refl, λ s init. refl),
      (
        (refl, λ s init. refl),
        (
          (refl, λ s init. refl),
          (
            (refl, λ s init. refl),
            (
              (refl, λ s init. refl),
              ((refl, λ s init. refl), ((refl, λ s init. refl), ((refl, λ s init. refl), tt))),
            ),
          ),
        ),
      ),
    ),
  ),
)

overpunch_neg-Overpunches : (d : ℕ) → is_digit d ≡ true → Overpunches overpunch_neg true d
unfolding range is_space char_at index_of
overpunch_neg-Overpunches d h = by_digit (Overpunches overpunch_neg true) d h (
  (refl, λ s init. refl),
  (
    (refl, λ s init. refl),
    (
      (refl, λ s init. refl),
      (
        (refl, λ s init. refl),
        (
          (refl, λ s init. refl),
          (
            (refl, λ s init. refl),
            (
              (refl, λ s init. refl),
              ((refl, λ s init. refl), ((refl, λ s init. refl), ((refl, λ s init. refl), tt))),
            ),
          ),
        ),
      ),
    ),
  ),
)

lstrip-append :
    (init : Text) (c : ℕ)
    → Digits init
    → is_space c ≡ false
    → lstrip is_space (init ++ c ∷ []) ≡ init ++ c ∷ []
unfolding lstrip
lstrip-append [] c h n = rw (n) refl
lstrip-append (d ∷ init) c h n = rw (is_digit-not-space d h.0) refl

-- The text is not changed by stripping.
strip-append :
    (init : Text) (c : ℕ)
    → Digits init
    → is_space c ≡ false
    → strip (init ++ c ∷ []) ≡ init ++ c ∷ []
unfolding strip
strip-append init c h n =
    ap (rstrip is_space) (lstrip-append init c h n) ∙ rstrip-keep is_space init c n

not_empty-append : (init : Text) (c : ℕ) → is_empty (init ++ c ∷ []) ≡ false
not_empty-append [] c = refl
not_empty-append (d ∷ init) c = refl

-- A signed value, for a table that the last digit is overpunched with.
signed_numeral :
    (table : Text) (negative : Bool) (n w scale : ℕ)
    → n < most_exact
    → ((d : ℕ) → is_digit d ≡ true → Overpunches table negative d)
    → zoned_to_decimal (overpunched table (split_last (show_padded w n))) scale true
      ≡ ok record { mantissa = with_sign negative n; scale = scale }
unfolding zoned_to_decimal
signed_numeral table negative n w scale small overpunches =
    let s = show_padded w n in
    let all = show_padded-Digits w n in
    let starts = show_padded-StartsWithDigit w n in
    let (init, (d, split, digits, last)) = Digits-last s all starts in
    let (visible, decodes) = overpunches d last in
    let c = char_at (d - b'0') table in
    let written : overpunched table (split_last s) ≡ init ++ c ∷ [] =
      ap (λ t. overpunched table (split_last t)) split
      ∙ ap (overpunched table) (split_last-append init d) in
    let read : without_sign (init ++ c ∷ []) (split_last (init ++ c ∷ [])) ≡ ok (s, negative) =
      ap (without_sign (init ++ c ∷ [])) (split_last-append init c)
      ∙ decodes _ init
      ∙ ap (λ t. ok (t, negative)) (sym split) in
    rw
      (
        written,
        strip-append init c digits visible,
        not_empty-append init c,
        read,
        all_digits-Digits s all starts,
        digits_from-show_padded w n,
        in_context-below n small,
      )
      refl

neg_pos_suc : (m : ℕ) → neg (pos (suc m)) ≡ negsuc m
neg_pos_suc m = ground arith

-- Any value that has no more decimals than the scale, and at most 28 digits at that scale, is read
-- back exactly from its zoned form, and so is one that is not negative without an overpunch.
pub zoned_to_decimal-decimal_to_zoned :
    (mantissa : ℤ) (n digits scale : ℕ)
    → magnitude mantissa < most_exact
    → n < most_exact
    → (zoned_to_decimal (decimal_to_zoned mantissa digits scale true) scale true
        ≡ ok record { mantissa = mantissa; scale = scale })
      × (zoned_to_decimal (decimal_to_zoned (pos n) digits scale false) scale false
          ≡ ok record { mantissa = pos n; scale = scale })
unfolding decimal_to_zoned
zoned_to_decimal-decimal_to_zoned (pos m) n digits scale small small_n = (
  rw (in_context-below m small)
      (signed_numeral overpunch_pos false m (digits + scale) scale small overpunch_pos-Overpunches),
  zoned_to_decimal-unsigned n digits scale small_n,
)
zoned_to_decimal-decimal_to_zoned (negsuc m) n digits scale small small_n = (
  rw (in_context-below (suc m) small) (
      signed_numeral overpunch_neg true (suc m) (digits + scale) scale small
        overpunch_neg-Overpunches
      ∙ ap (λ z. ok record { mantissa = z; scale = scale }) (neg_pos_suc m)),
  zoned_to_decimal-unsigned n digits scale small_n,
)
