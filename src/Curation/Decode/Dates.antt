-- ===== src/Curation/Decode/Dates.antt =====
-- src/ods_ingest/curation/decode.py: the dates of the mainframe's feeds. A date stands for the midnight
-- in UTC that Python's `datetime` gives; `datetime` counts the years from 1 to 9999 by the Gregorian
-- calendar.
use bank_ods_unified_api.Prelude.{
  ℕ, ◌%◌, Bool, false, not, ◌&&◌, ◌||◌, Option, none, some, length, take, drop, leb, ltb, ◌==◌,
  if◌then◌else◌,
}
use bank_ods_unified_api.Prelude.Text.{Text, codes, eq_text}
use bank_ods_unified_api.Prelude.Strip.{strip, is_empty}
use bank_ods_unified_api.Prelude.Index.{or_blank}
use bank_ods_unified_api.Prelude.Numeral.{all_digits, digits_from}
use bank_ods_unified_api.Curation.Decode.{Decoded, ok, fails, bad_date}

pub record Date : Type 0 where
  pub year : ℕ
  pub month : ℕ
  pub day : ℕ

unfoldable pub is_leap : ℕ → Bool
is_leap year = year % 4 == 0 && (not (year % 100 == 0) || year % 400 == 0)

unfoldable pub days_in_month : ℕ → ℕ → ℕ
days_in_month year month =
    if month == 2
    then if is_leap year then 29 else 28
    else if month == 4 || month == 6 || month == 9 || month == 11
    then 30
    else 31

-- `datetime(year, month, day)`, where `none` is the ValueError.
unfoldable pub datetime : ℕ → ℕ → ℕ → Option Date
datetime year month day =
    if (leb 1 year && leb year 9999)
      && (leb 1 month && leb month 12)
      && (leb 1 day && leb day (days_in_month year month))
    then some record { year = year; month = month; day = day }
    else none

-- `int(s)` of digits.
abbrev pub or_nought : Option ℕ → ℕ
or_nought none = 0
or_nought (some n) = n

abbrev pub digits : Text → ℕ
digits s = or_nought (digits_from 0 false s)

abbrev pub valid_date : Text → Option Date → Decoded Date
valid_date raw none = fails (bad_date raw)
valid_date raw (some d) = ok d

unfoldable pub ccyymmdd_to_datetime : Option Text → Decoded Date
ccyymmdd_to_datetime raw =
    let s = strip (or_blank raw) in
    if not (length s == 8) || not (all_digits s)
    then fails (bad_date (or_blank raw))
    else valid_date (or_blank raw)
        (datetime (digits (take 4 s)) (digits (take 2 (drop 4 s))) (digits (take 2 (drop 6 s))))

abbrev pub date_or_none : Decoded Date → Option Date
date_or_none (ok d) = some d
date_or_none (fails e) = none

unfoldable pub optional_date : Option Text → Option Date
optional_date raw =
    let s = strip (or_blank raw) in
    if is_empty s || eq_text s (codes "00000000") || eq_text s (codes "99999999")
    then none
    else date_or_none (ccyymmdd_to_datetime (some s))

-- `d1 < d2` on the midnights.
unfoldable pub before : Date → Date → Bool
before a b =
    ltb a.year b.year
    || (a.year == b.year && (ltb a.month b.month || (a.month == b.month && ltb a.day b.day)))
