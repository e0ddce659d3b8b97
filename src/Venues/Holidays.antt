-- ===== src/Venues/Holidays.antt =====
-- The holiday calendar. A set of dates is the list of their days.
use dibs_reservation_sniper.Prelude.{
  ℕ, zero, suc, ◌+◌, ◌-◌, ◌*◌, ◌/◌, ◌%◌, String, Bool, false, ◌||◌, Option, none, some, List, [],
  ◌∷◌, ◌++◌, ◌==◌, str_eq, if◌then◌else◌,
}
use dibs_reservation_sniper.Calendar.{date, weekday}

abbrev monday : ℕ
monday = 0

abbrev sunday : ℕ
sunday = 6

-- The Python remainder of a difference of weekdays is not negative.
unfoldable pub nth_weekday : ℕ → ℕ → ℕ → ℕ → ℕ
nth_weekday year month day nth =
    let first = date year month 1 in first + ((day + 7 - weekday first) % 7 + 7 * (nth - 1))

-- Every difference below is of a smaller number from a larger one.
unfoldable pub easter_sunday : ℕ → ℕ
easter_sunday year =
    let a = year % 19 in
    let b = year / 100 in
    let c = year % 100 in
    let d = b / 4 in
    let e = b % 4 in
    let f = (b + 8) / 25 in
    let g = (b - f + 1) / 3 in
    let h = (19 * a + b - d - g + 15) % 30 in
    let i = c / 4 in
    let k = c % 4 in
    let l = (32 + 2 * e + 2 * i - h - k) % 7 in
    let m = (a + 11 * h + 22 * l) / 451 in
    let n = h + l - 7 * m + 114 in date year (n / 31) (n % 31 + 1)

unfoldable pub victoria_day : ℕ → ℕ
victoria_day year = let may_24 = date year 5 24 in may_24 - weekday may_24

unfoldable pub holidays_for : ℕ → List (ℕ × String)
unfolding nth_weekday easter_sunday victoria_day
holidays_for year =
    let easter = easter_sunday year in
    (date year 1 1, "New Year's Day")
    ∷ (nth_weekday year 2 monday 3, "Family Day")
    ∷ (date year 2 14, "Valentine's Day")
    ∷ (easter - 2, "Good Friday")
    ∷ (easter, "Easter Sunday")
    ∷ (easter + 1, "Easter Monday")
    ∷ (nth_weekday year 5 sunday 2, "Mother's Day")
    ∷ (victoria_day year, "Victoria Day")
    ∷ (date year 7 1, "Canada Day")
    ∷ (nth_weekday year 8 monday 1, "Civic Holiday")
    ∷ (nth_weekday year 9 monday 1, "Labour Day")
    ∷ (nth_weekday year 10 monday 2, "Thanksgiving Monday")
    ∷ (date year 12 24, "Christmas Eve")
    ∷ (date year 12 25, "Christmas Day")
    ∷ (date year 12 26, "Boxing Day")
    ∷ (date year 12 31, "New Year's Eve")
    ∷ []

-- The years from 2024 on.
unfoldable pub holidays_of_years : ℕ → ℕ → List (ℕ × String)
unfolding holidays_for
holidays_of_years zero first = []
holidays_of_years (suc n) first = holidays_for first ++ holidays_of_years n (suc first)

unfoldable pub holiday_calendar : List (ℕ × String)
unfolding holidays_of_years
holiday_calendar = holidays_of_years 8 2024

-- `x in xs`
unfoldable pub mem_text : String → List String → Bool
mem_text x [] = false
mem_text x (y ∷ ys) = str_eq x y || mem_text x ys

unfoldable pub mem_day : ℕ → List ℕ → Bool
mem_day x [] = false
mem_day x (y ∷ ys) = x == y || mem_day x ys

unfoldable pub days_named : List String → List (ℕ × String) → List ℕ
unfolding mem_text
days_named names [] = []
days_named names ((day, name) ∷ days) =
    let rest = days_named names days in if mem_text name names then day ∷ rest else rest

-- No two holidays of the calendar are on one day, so the first is the only one.
unfoldable pub name_in : List (ℕ × String) → ℕ → Option String
name_in [] day = none
name_in ((d, name) ∷ days) day = if d == day then some name else name_in days day

unfoldable pub holiday_name : ℕ → Option String
unfolding name_in holiday_calendar
holiday_name day = name_in holiday_calendar day

abbrev statutory_names : List String
statutory_names =
    "New Year's Day" ∷ "Good Friday" ∷ "Easter Sunday" ∷ "Thanksgiving Monday" ∷ "Christmas Day"
    ∷ "Boxing Day" ∷ []

unfoldable pub statutory_closures : List ℕ
unfolding days_named holiday_calendar
statutory_closures = days_named statutory_names holiday_calendar

abbrev recreation_names : List String
recreation_names = "New Year's Day" ∷ "Easter Sunday" ∷ "Christmas Day" ∷ "Boxing Day" ∷ []

unfoldable pub recreation_closures : List ℕ
unfolding days_named holiday_calendar
recreation_closures = days_named recreation_names holiday_calendar

abbrev sellout_names : List String
sellout_names =
    "Valentine's Day" ∷ "Mother's Day" ∷ "Easter Monday" ∷ "Family Day" ∷ "Victoria Day"
    ∷ "Canada Day" ∷ "Civic Holiday" ∷ "Labour Day" ∷ "Christmas Eve" ∷ "New Year's Eve" ∷ []

unfoldable pub common_sellout_dates : List ℕ
unfolding days_named holiday_calendar
common_sellout_dates = days_named sellout_names holiday_calendar

abbrev long_weekend_names : List String
long_weekend_names =
    "Family Day" ∷ "Victoria Day" ∷ "Canada Day" ∷ "Civic Holiday" ∷ "Labour Day" ∷ []

unfoldable pub recreation_sellout_dates : List ℕ
unfolding days_named holiday_calendar
recreation_sellout_dates = days_named long_weekend_names holiday_calendar
