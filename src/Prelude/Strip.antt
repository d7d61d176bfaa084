-- ===== src/Prelude/Strip.antt =====
-- Python's `str` methods that cut a text: `strip`, `rstrip`, `split` at one character, `isdigit`.
use bank_ods_unified_api.Prelude.Tests.{leb, ◌==◌, if◌then◌else◌, Bool-cases}
use bank_ods_unified_api.Prelude.Lists.{length, All}
use bank_ods_unified_api.Prelude.Text.{Text}
use Prim.Native.Nat.{ℕ, ◌≤◌}
use mathlib.Core.Path.{◌≡◌, refl}
use mathlib.Core.Logic.{inl, inr}
use mathlib.Core.Bool.{Bool, true, false, ◌&&◌, ◌||◌}
use mathlib.Core.List.{List, [], ◌∷◌, ◌++◌}
use native.Mathlib.Omega.{arith}

-- `str.isspace` of one code point.
unfoldable pub is_space : ℕ → Bool
is_space c =
    (leb 9 c && leb c 13)
    || (leb 28 c && leb c 32)
    || c == 0x85
    || c == 0xa0
    || c == 0x1680
    || (leb 0x2000 c && leb c 0x200a)
    || c == 0x2028
    || c == 0x2029
    || c == 0x202f
    || c == 0x205f
    || c == 0x3000

abbrev pub is_empty {ℓ} : {A : Type ℓ} → List A → Bool
is_empty [] = true
is_empty (x ∷ xs) = false

-- The text without the characters at its end that pass the test.
unfoldable pub rstrip : (ℕ → Bool) → Text → Text
rstrip drops [] = []
rstrip drops (c ∷ s) = let r = rstrip drops s in if is_empty r && drops c then [] else c ∷ r

unfoldable pub lstrip : (ℕ → Bool) → Text → Text
lstrip drops [] = []
lstrip drops (c ∷ s) = let r = lstrip drops s in if drops c then r else c ∷ s

-- `s.strip()`
unfoldable pub strip : Text → Text
unfolding rstrip lstrip is_space
strip s = rstrip is_space (lstrip is_space s)

-- `sep in s`
unfoldable pub has : ℕ → Text → Bool
has sep [] = false
has sep (c ∷ s) = c == sep || has sep s

abbrev pub onto_first : ℕ → List Text → List Text
onto_first c [] = (c ∷ []) ∷ []
onto_first c (p ∷ ps) = (c ∷ p) ∷ ps

-- `s.split(sep)` for one character.
unfoldable pub split : ℕ → Text → List Text
split sep [] = [] ∷ []
split sep (c ∷ s) = let ps = split sep s in if c == sep then [] ∷ ps else onto_first c ps

-- Reading a file in text mode takes "\r\n" and "\r" for "\n".
unfoldable pub universal_newlines : Text → Text
universal_newlines [] = []
universal_newlines (c ∷ []) = (if c == 13 then 10 else c) ∷ []
universal_newlines (c ∷ d ∷ s) =
    let rest = universal_newlines (d ∷ s) in
    if c == 13 then if d == 10 then rest else 10 ∷ rest else c ∷ rest

-- The lines that iteration over a file yields, without their "\n".
unfoldable pub lines : Text → List Text
lines [] = []
lines (c ∷ s) = let ps = lines s in if c == 10 then [] ∷ ps else onto_first c ps

-- The characters at which `str.splitlines` ends a line.
unfoldable pub is_line_break : ℕ → Bool
is_line_break c =
    (leb 10 c && leb c 13) || (leb 28 c && leb c 30) || c == 0x85 || c == 0x2028 || c == 0x2029

-- `s.splitlines()`; "\r\n" ends one line.
unfoldable pub splitlines : Text → List Text
unfolding is_line_break
splitlines [] = []
splitlines (c ∷ []) = if is_line_break c then [] ∷ [] else (c ∷ []) ∷ []
splitlines (c ∷ d ∷ s) =
    let rest = splitlines (d ∷ s) in
    if c == 13 && d == 10 then rest else if is_line_break c then [] ∷ rest else onto_first c rest

-- `s.startswith(prefix)`
unfoldable pub starts_with : Text → Text → Bool
starts_with [] s = true
starts_with (c ∷ p) [] = false
starts_with (c ∷ p) (d ∷ s) = c == d && starts_with p s

pub lines-append : (s t : Text) → has 10 s ≡ false → lines (s ++ 10 ∷ t) ≡ s ∷ lines t
unfolding lines has
lines-append [] t h = refl
lines-append (c ∷ s) t h = ground (arith, lines-append s t)

-- A text with no "\r" is read as it is.
pub universal_newlines-plain : (s : Text) → has 13 s ≡ false → universal_newlines s ≡ s
unfolding universal_newlines has
universal_newlines-plain [] h = refl
universal_newlines-plain (c ∷ []) h = ground arith
universal_newlines-plain (c ∷ d ∷ s) h = ground (arith, universal_newlines-plain (d ∷ s))

pub split-none : (sep : ℕ) (s : Text) → has sep s ≡ false → split sep s ≡ s ∷ []
unfolding split has
split-none sep [] h = refl
split-none sep (c ∷ s) h = ground (arith, split-none sep s)

pub split-append :
    (sep : ℕ) (s t : Text) → has sep s ≡ false → split sep (s ++ sep ∷ t) ≡ s ∷ split sep t
unfolding split has
split-append sep [] t h = ground arith
split-append sep (c ∷ s) t h = ground (arith, split-append sep s t)

pub has-append : (sep : ℕ) (s t : Text) → has sep (s ++ t) ≡ (has sep s || has sep t)
unfolding has
has-append sep [] t = refl
has-append sep (c ∷ s) t = ground (arith, has-append sep s t)

-- Where nothing passes the test at the end, nothing is cut.
pub rstrip-keep :
    (drops : ℕ → Bool) (s : Text) (c : ℕ)
    → drops c ≡ false
    → rstrip drops (s ++ c ∷ []) ≡ s ++ c ∷ []
unfolding rstrip
rstrip-keep drops [] c h = rw h
rstrip-keep drops (d ∷ []) c h = rw h
rstrip-keep drops (d ∷ e ∷ s) c h = rw (rstrip-keep drops (e ∷ s) c h)

-- What is cut at the end was all to be dropped.
pub rstrip-append_dropped :
    (drops : ℕ → Bool) (s t : Text)
    → All (λ c. drops c ≡ true) t
    → rstrip drops (s ++ t) ≡ rstrip drops s
unfolding rstrip
rstrip-append_dropped drops [] [] h = refl
rstrip-append_dropped drops [] (c ∷ t) h = rw (rstrip-append_dropped drops [] t h.1, h.0)
rstrip-append_dropped drops (c ∷ s) t h = rw (rstrip-append_dropped drops s t h)

pub length-rstrip-le : (drops : ℕ → Bool) (s : Text) → length (rstrip drops s) ≤ length s
unfolding rstrip
length-rstrip-le drops [] = omega arith
length-rstrip-le drops (c ∷ s) = ground (arith, length-rstrip-le drops s)

-- Stripping the end twice is stripping it once.
pub rstrip_idem : (drops : ℕ → Bool) (s : Text) → rstrip drops (rstrip drops s) ≡ rstrip drops s
unfolding rstrip
rstrip_idem drops [] = refl
rstrip_idem drops (c ∷ s) = elim (Bool-cases (is_empty (rstrip drops s) && drops c)) [
  | inl e ↦ rw e
  | inr e ↦ rw (e, rstrip_idem drops s, e)
]

-- A text of which no character passes the test is left alone.
pub rstrip-none : (drops : ℕ → Bool) (s : Text) → All (λ c. drops c ≡ false) s → rstrip drops s ≡ s
unfolding rstrip
rstrip-none drops [] h = refl
rstrip-none drops (c ∷ s) h = rw (rstrip-none drops s h.1, h.0) (ground arith)

pub not-has-All : (sep : ℕ) (s : Text) → has sep s ≡ false → All (λ c. (c == sep) ≡ false) s
unfolding has
not-has-All sep [] h = tt
not-has-All sep (c ∷ s) h = (ground arith, not-has-All sep s (ground arith))
