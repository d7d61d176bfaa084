-- ===== src/Services/Dates.antt =====
-- src/bank_ods/services/_common.py: calendar days and windows of days. An instant without a zone is a
-- number of microseconds since the start of the year 1; `from_iso` is `datetime.fromisoformat`, for
-- such instants. A day after the last one that `datetime` has is an OverflowError.
use bank_ods_unified_api.Prelude.{
  ℕ, ◌+◌, ◌-◌, ◌*◌, ◌/◌, ◌%◌, ◌≤◌, ◌≡◌, ◌↔◌, Bool, true, ◌&&◌, Option, none, some, leb, ltb,
  if◌then◌else◌, arith,
}
use bank_ods_unified_api.Prelude.Text.{Text}

abbrev pub Instant : Type 0
Instant = ℕ

abbrev pub day : ℕ
day = 86_400_000_000

-- The number of days from the start of year 1 to the end of year 9999.
abbrev pub max_days : ℕ
max_days = 3_652_059

-- `{"$gte": first, "$lt": last}`
pub record Window : Type 0 where
  pub first : Instant
  pub last : Instant

pub data Windowed : Type 0 where
  window : Window → Windowed
  invalid_date : Windowed
  overflow : Windowed

abbrev pub midnight : Instant → Instant
midnight t = t - t % day

module _ (from_iso : Text → Option Instant) where
  unfoldable pub day_start : Text → Option Instant
  day_start date = elim (from_iso date) [ none ↦ none | some t ↦ some (midnight t) ]

  abbrev pub window_from : Option Instant → Option Instant → Windowed
  window_from none to_day = invalid_date
  window_from (some first) none = invalid_date
  window_from (some first) (some last) =
      if leb (max_days * day) (last + day)
      then overflow
      else window record { first = first; last = last + day }

  -- `date_window`: from the start of the one day to the start of the day after the other.
  unfoldable pub date_window : Text → Text → Windowed
  date_window from_date to_date = window_from (day_start from_date) (day_start to_date)

  unfoldable pub day_range : Text → Windowed
  day_range date = window_from (day_start date) (day_start date)

-- What the filter selects.
unfoldable pub in_window : Window → Instant → Bool
in_window w t = leb w.first t && ltb t w.last

-- The filter selects the instants of the days from the one to the other.
pub in_window-days :
    (from_day to_day t : Instant)
    → (in_window record { first = midnight from_day; last = midnight to_day + day } t ≡ true)
      ↔ ((from_day / day ≤ t / day) × (t / day ≤ to_day / day))
unfolding in_window
in_window-days from_day to_day t = (λ h. ground arith, λ h. ground arith)
