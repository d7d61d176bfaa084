-- ===== src/Curation/Decode/Julian.antt =====
-- src/ods_ingest/curation/decode.py: julian dates. A date is as in Curation.Decode.Dates.
use bank_ods_unified_api.Prelude.{
  ℕ, zero, suc, ◌+◌, ◌-◌, ◌≡◌, ◌≤◌, ◌<◌, true, false, refl, arith, not, ◌&&◌, ◌||◌, Option, none,
  some, ◌++◌, length, take, drop, leb, ◌==◌, if◌then◌else◌,
}
use bank_ods_unified_api.Prelude.Text.{Text}
use bank_ods_unified_api.Prelude.Strip.{strip}
use bank_ods_unified_api.Prelude.Index.{or_blank}
use bank_ods_unified_api.Prelude.Numeral.{all_digits, show_padded}
use bank_ods_unified_api.Curation.Decode.Dates.{Date, days_in_month, digits}

-- The DecodeError, the ValueError of the year 0, and the OverflowError after the year 9999.
pub data Julian : Type 0 where
  julian : Date → Julian
  bad_julian no_such_day value_error overflow_error : Julian

-- The day at a distance from the start of a month; `none` where that is after the year.
unfoldable pub day_from : ℕ → ℕ → ℕ → ℕ → Option Date
day_from zero year month day = none
day_from (suc months) year month day =
    let later = day_from months year (month + 1) (day - days_in_month year month) in
    if leb day (days_in_month year month)
    then some record { year = year; month = month; day = day }
    else later

-- `datetime(year, 1, 1) + timedelta(days=day - 1)`, if that is in the year.
abbrev pub day_of : ℕ → ℕ → Option Date
day_of year day = day_from 12 year 1 day

-- Only the day 366 can be after its year.
abbrev pub in_year : ℕ → Option Date → Julian
in_year year none = if year == 9999 then overflow_error else no_such_day
in_year year (some d) = julian d

abbrev pub julian_of : ℕ → ℕ → Julian
julian_of year day =
    if not (leb 1 day && leb day 366)
    then no_such_day
    else if year == 0
    then value_error
    else in_year year (day_of year day)

unfoldable pub julian_to_datetime : Option Text → Julian
julian_to_datetime raw =
    let s = strip (or_blank raw) in
    if not (length s == 7) || not (all_digits s)
    then bad_julian
    else julian_of (digits (take 4 s)) (digits (drop 4 s))

-- The days of a run of months, by its first month and its length.
unfoldable pub days_of_months : ℕ → ℕ → ℕ → ℕ
days_of_months year month zero = 0
days_of_months year month (suc n) = days_in_month year month + days_of_months year (month + 1) n

-- `tm_yday`
unfoldable pub day_of_year : Date → ℕ
day_of_year d = days_of_months d.year 1 (d.month - 1) + d.day

unfoldable pub datetime_to_julian : Date → Text
datetime_to_julian d = show_padded 4 d.year ++ show_padded 3 (day_of_year d)

-- The day that lies so many whole months on is one of the month that follows.
day_from-days_of_months :
    (n fuel year month target day total : ℕ)
    → target ≡ month + n
    → n < fuel
    → total ≡ days_of_months year month n + day
    → 1 ≤ day
    → day ≤ days_in_month year target
    → day_from fuel year month total ≡ some record { year = year; month = target; day = day }
unfolding day_from days_of_months
day_from-days_of_months n zero year month target day total t f e l h = absurd (omega arith)
day_from-days_of_months zero (suc fuel) year month target day total t f e l h =
    let a : month ≡ target = omega arith in
    let b : total ≡ day = omega arith in
    let k : leb day (days_in_month year target) ≡ true = ground arith in rw (a, b, k)
day_from-days_of_months (suc n) (suc fuel) year month target day total t f e l h =
    let k : leb total (days_in_month year month) ≡ false = ground arith in
    rw k (
      day_from-days_of_months n fuel year (month + 1) target day (total - days_in_month year month)
        (omega arith) (omega arith) (omega arith) l h)

-- The day of the year of a date is read back as the date.
pub julian_of-day_of_year :
    (d : Date)
    → 1 ≤ d.year
    → (1 ≤ d.month) × (d.month ≤ 12)
    → (1 ≤ d.day) × (d.day ≤ days_in_month d.year d.month)
    → day_of_year d ≤ 366
    → julian_of d.year (day_of_year d) ≡ julian d
unfolding day_of_year
julian_of-day_of_year d y (m, m') (l, l') h =
    let n = days_of_months d.year 1 (d.month - 1) in
    let found : day_of d.year (n + d.day) ≡ some d =
      day_from-days_of_months (d.month - 1) 12 d.year 1 d.month d.day (n + d.day) (omega arith)
        (omega arith) refl l l' in
    let a : leb 1 (n + d.day) ≡ true = ground arith in
    let b : leb (n + d.day) 366 ≡ true = ground arith in
    let c : (d.year == 0) ≡ false = ground arith in rw (a, b, c, found)
