-- ===== src/Calendar.antt =====
-- Python's `datetime.date`: a day is its ordinal in the proleptic Gregorian calendar, day 1 of year 1
-- being 1, a Monday.
use dibs_reservation_sniper.Prelude.{
  ℕ, zero, suc, ◌+◌, ◌-◌, ◌*◌, ◌/◌, ◌%◌, Bool, not, ◌&&◌, ◌||◌, ◌==◌, leb, if◌then◌else◌,
}
use dibs_reservation_sniper.Model.{IsoDate}

unfoldable pub is_leap : ℕ → Bool
is_leap y = y % 4 == 0 && (not (y % 100 == 0) || y % 400 == 0)

unfoldable pub days_in_month : ℕ → ℕ → ℕ
unfolding is_leap
days_in_month y m =
    if m == 2
    then (if is_leap y then 29 else 28)
    else if m == 4 || (m == 6 || (m == 9 || m == 11))
    then 30
    else 31

-- The days of the first months of a year.
unfoldable pub days_of_months : ℕ → ℕ → ℕ
unfolding days_in_month
days_of_months y zero = 0
days_of_months y (suc m) = days_of_months y m + days_in_month y (suc m)

unfoldable pub days_before_year : ℕ → ℕ
days_before_year y = let z = y - 1 in z * 365 + z / 4 + z / 400 - z / 100

-- `date(y, m, d)`, as its ordinal
unfoldable pub date : ℕ → ℕ → ℕ → ℕ
unfolding days_of_months days_before_year
date y m d = days_before_year y + days_of_months y (m - 1) + d

-- `date.weekday()`, Monday being 0
unfoldable pub weekday : ℕ → ℕ
weekday day = (day + 6) % 7

-- `date.fromisoformat` of the digits does not raise.
unfoldable pub is_calendar_day : IsoDate → Bool
unfolding days_in_month
is_calendar_day d =
    leb 1 d.year
    && (leb 1 d.month
        && (leb d.month 12 && (leb 1 d.day && leb d.day (days_in_month d.year d.month))))

unfoldable pub ordinal : IsoDate → ℕ
ordinal d = date d.year d.month d.day
