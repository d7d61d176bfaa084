-- ===== src/Files/FixedWidth/RoundTrip.antt =====
-- What is packed into a record is unpacked again, up to the space at the end of a value.
use mathlib.Core.Path.{ap₂}
use bank_ods_unified_api.Prelude.{
  ℕ, zero, suc, ◌+◌, ◌-◌, ◌≤◌, ◌≡◌, refl, sym, ap, ◌∙◌, true, List, [], ◌∷◌, ◌++◌, length,
  replicate, ltb, All, Bool-cases, inl, inr, arith, length-append, length-replicate, take-append,
  drop-append, append_assoc, ◌==◌,
}
use bank_ods_unified_api.Prelude.Text.{Text}
use bank_ods_unified_api.Prelude.Dict.{Dict}
use bank_ods_unified_api.Prelude.Strip.{is_space, rstrip, rstrip-append_dropped}
use bank_ods_unified_api.Files.FixedWidth.{
  Field, offsets_from, offsets, cells, slice, unpack, pack, parsed, parse_error, Parsed, onto_line,
  ljust, value_at, record_length,
}

unfoldable pub total : List Field → ℕ
total [] = 0
total (f ∷ fs) = f.width + total fs

-- The values without the space at their ends.
unfoldable pub trimmed : List Field → Dict Text → Dict Text
trimmed [] values = []
trimmed (f ∷ fs) values = (f.name, rstrip is_space (value_at values f)) ∷ trimmed fs values

parsed_injective : {A : Type 0} {a b : A} → parsed a ≡ parsed b → a ≡ b
parsed_injective h = cc

onto_line-parsed :
    (cell : Text) (rest : Parsed Text) (line : Text)
    → onto_line cell rest ≡ parsed line
    → (t : Text) × (rest ≡ parsed t) × (line ≡ cell ++ t)
onto_line-parsed cell (parsed t) line h = (t, refl, sym (parsed_injective h))
onto_line-parsed cell (parse_error e) line h = cc

pack-cons :
    (f : Field) (fs : List Field) (values : Dict Text) (line : Text)
    → pack (f ∷ fs) values ≡ parsed line
    → (length (value_at values f) ≤ f.width)
      × ((rest : Text) × (pack fs values ≡ parsed rest)
          × (line ≡ ljust f.width (value_at values f) ++ rest))
unfolding pack
pack-cons f fs values line h = elim (Bool-cases (ltb f.width (length (value_at values f)))) [
  | inl long ↦ cc (rw (long) at h)
  | inr fits ↦ (
    ground arith,
    onto_line-parsed (ljust f.width (value_at values f)) (pack fs values) line (rw (fits) at h),
  )
]

spaces : (n : ℕ) → All (λ c. is_space c ≡ true) (replicate n b' ')
unfolding is_space
spaces zero = tt
spaces (suc n) = (refl, spaces n)

length-ljust : (w : ℕ) (v : Text) → length v ≤ w → length (ljust w v) ≡ w
length-ljust w v h =
    length-append v (replicate (w - length v) b' ')
    ∙ omega (arith, length-replicate {A = ℕ} (w - length v) b' ')

rstrip-ljust : (w : ℕ) (v : Text) → rstrip is_space (ljust w v) ≡ rstrip is_space v
rstrip-ljust w v =
    rstrip-append_dropped is_space v (replicate (w - length v) b' ') (spaces (w - length v))

-- A cell is found at its own position.
slice-cell :
    (before cell rest : Text) (w : ℕ)
    → length cell ≡ w
    → slice (length before) (length before + w) (before ++ (cell ++ rest)) ≡ cell
slice-cell before cell rest w h =
    let e : length before + w - length before ≡ length cell = omega arith in
    rw (drop-append before (cell ++ rest), e) (take-append cell rest)

cells-pack :
    (fs : List Field) (values : Dict Text) (before line : Text)
    → pack fs values ≡ parsed line
    → (cells (before ++ line) (offsets_from (length before) fs) ≡ trimmed fs values)
      × (length line ≡ total fs)
unfolding pack cells offsets_from trimmed total
cells-pack [] values before line h = rw⁻¹ (parsed_injective h) (refl, refl)
cells-pack (f ∷ fs) values before line h =
    let (fits, (rest, e, split)) = pack-cons f fs values line h in
    let cell = ljust f.width (value_at values f) in
    let wide : length cell ≡ f.width = length-ljust f.width (value_at values f) fits in
    let (later, n) = cells-pack fs values (before ++ cell) rest e in
    let next : length (before ++ cell) ≡ length before + f.width =
      length-append before cell ∙ ap (λ k. length before + k) wide in
    (
      ap₂ (λ v ds. (f.name, v) ∷ ds)
          (ap (λ l. rstrip is_space (slice (length before) (length before + f.width) (before ++ l)))
              split
            ∙ ap (rstrip is_space) (slice-cell before cell rest f.width wide)
            ∙ rstrip-ljust f.width (value_at values f))
          (ap₂ (λ l k. cells l (offsets_from k fs))
              (ap (λ l. before ++ l) split ∙ sym (append_assoc before cell rest)) (sym next)
            ∙ later),
      ap length split ∙ length-append cell rest ∙ omega (arith, wide, n),
    )

-- A record that `pack` renders for a layout of the full length is unpacked to its values without
-- the space at their ends.
pub unpack-pack :
    (fs : List Field) (values : Dict Text) (line : Text)
    → total fs ≡ record_length
    → pack fs values ≡ parsed line
    → unpack line (offsets fs) ≡ parsed (trimmed fs values)
unfolding unpack offsets
unpack-pack fs values line full h =
    let (same, n) = cells-pack fs values [] line h in
    let long : (length line == record_length) ≡ true = ground (arith, n, full) in
    rw (long) (ap parsed same)
