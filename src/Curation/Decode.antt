-- ===== src/Curation/Decode.antt =====
-- src/ods_ingest/curation/decode.py: zoned decimals. A decimal is a mantissa and a scale, rounded as
-- the default context of Python rounds it; the digits are the ASCII ones.
pub mod Zoned
pub mod Dates
pub mod Julian
use bank_ods_unified_api.Prelude.{
  ℕ, suc, ◌+◌, ◌-◌, String, Bool, true, false, Option, none, some, List, [], ◌∷◌, ◌++◌, ◌==◌, ◌*◌,
  ◌/◌, ◌%◌, ◌^◌, length, ltb, if◌then◌else◌,
}
use bank_ods_unified_api.Prelude.Text.{Text, codes}
use bank_ods_unified_api.Prelude.Strip.{strip, is_empty}
use bank_ods_unified_api.Prelude.Int.{ℤ, pos, negsuc, neg}
use bank_ods_unified_api.Prelude.Numeral.{is_digit, all_digits, digits_from, show_padded}

abbrev pub overpunch_pos : Text
overpunch_pos = codes "{ABCDEFGHI"

abbrev pub overpunch_neg : Text
overpunch_neg = codes "}JKLMNOPQR"

pub data DecodeError : Type 0 where
  empty_value : DecodeError
  bad_overpunch : ℕ → DecodeError
  non_numeric : Text → DecodeError
  bad_date : Text → DecodeError

pub data Decoded (A : Type 0) : Type 0 where
  ok : A → Decoded A
  fails : DecodeError → Decoded A

pub record Decimal : Type 0 where
  pub mantissa : ℤ
  pub scale : ℕ

-- `table.index(c)`, where `none` stands for a character that is not in the table.
unfoldable pub index_of : ℕ → Text → Option ℕ
index_of c [] = none
index_of c (d ∷ table) = elim (index_of c table) [
  | none ↦ if c == d then some 0 else none
  | some i ↦ if c == d then some 0 else some (suc i)
]

-- `table[i]`
unfoldable pub char_at : ℕ → Text → ℕ
char_at i [] = 0
char_at i (c ∷ table) = if i == 0 then c else char_at (i - 1) table

-- `s[:-1]` and `s[-1]`
unfoldable pub split_last : Text → Option (Text × ℕ)
split_last [] = none
split_last (c ∷ s) = elim (split_last s) [
  | none ↦ some ([], c)
  | some (init, last) ↦ some (c ∷ init, last)
]

-- The digits without the overpunch, by where the last character stands in the two tables.
abbrev pub by_tables : Text → Text → ℕ → Option ℕ → Option ℕ → Decoded (Text × Bool)
by_tables s init last (some d) _ = ok (init ++ (b'0' + d) ∷ [], false)
by_tables s init last none (some d) = ok (init ++ (b'0' + d) ∷ [], true)
by_tables s init last none none =
    if is_digit last then ok (s, false) else fails (bad_overpunch last)

abbrev pub without_sign : Text → Option (Text × ℕ) → Decoded (Text × Bool)
without_sign s none = fails empty_value
without_sign s (some (init, last)) =
    by_tables s init last (index_of last overpunch_pos) (index_of last overpunch_neg)

-- The numbers that the default context of `decimal` holds exactly have 28 digits at most.
abbrev pub most_exact : ℕ
most_exact = 10 ^ 28

-- The quotient is rounded to the nearest, and half-way to the even one.
abbrev pub half_even : ℕ → ℕ → ℕ → ℕ
half_even q r unit =
    if ltb (2 * r) unit
    then q
    else if ltb unit (2 * r)
    then suc q
    else if q % 2 == 0
    then q
    else suc q

abbrev pub rounded_at : ℕ → ℕ → ℕ
rounded_at unit n = half_even (n / unit) (n % unit) unit * unit

-- What `scaleb` and `abs` make of the digits: the default context keeps the first 28. The number
-- stays at its scale, where the code raises the exponent.
unfoldable pub in_context : ℕ → ℕ
in_context n = if ltb n most_exact then n else rounded_at (10 ^ (length (show_padded 1 n) - 28)) n

abbrev pub with_sign : Bool → ℕ → ℤ
with_sign true n = neg (pos n)
with_sign false n = pos n

abbrev pub number : Text → ℕ → Bool → Option ℕ → Decoded Decimal
number raw scale negative none = fails (non_numeric raw)
number raw scale negative (some n) =
    ok record { mantissa = with_sign negative (in_context n); scale = scale }

abbrev pub from_digits : Text → ℕ → Decoded (Text × Bool) → Decoded Decimal
from_digits raw scale (fails e) = fails e
from_digits raw scale (ok (s, negative)) =
    if all_digits s
    then number raw scale negative (digits_from 0 false s)
    else fails (non_numeric raw)

unfoldable pub zoned_to_decimal : Text → ℕ → Bool → Decoded Decimal
zoned_to_decimal raw scale signed =
    let s = strip raw in
    if is_empty s
    then fails empty_value
    else from_digits raw scale (if signed then without_sign s (split_last s) else ok (s, false))

abbrev pub magnitude : ℤ → ℕ
magnitude (pos n) = n
magnitude (negsuc n) = suc n

abbrev pub table_for : ℤ → Text
table_for (pos n) = overpunch_pos
table_for (negsuc n) = overpunch_neg

abbrev pub overpunched : Text → Option (Text × ℕ) → Text
overpunched table none = []
overpunched table (some (init, last)) = init ++ char_at (last - b'0') table ∷ []

-- `decimal_to_zoned` for a value that has no more decimals than the scale, given by its mantissa at
-- that scale. `abs` rounds, and what it leaves is scaled as it is.
unfoldable pub decimal_to_zoned : ℤ → ℕ → ℕ → Bool → Text
decimal_to_zoned mantissa digits scale signed =
    let s = show_padded (digits + scale) (in_context (magnitude mantissa)) in
    if signed then overpunched (table_for mantissa) (split_last s) else s
