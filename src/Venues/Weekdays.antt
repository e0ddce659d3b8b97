-- ===== src/Venues/Weekdays.antt =====
-- The holidays that fall on a given weekday.
use dibs_reservation_sniper.Prelude.{ℕ, ◌+◌, ◌-◌, ◌*◌, ◌%◌, ◌≤◌, ◌<◌, ◌≡◌, arith}
use dibs_reservation_sniper.Calendar.{date, weekday}
use dibs_reservation_sniper.Venues.Holidays.{nth_weekday, victoria_day}

shift :
    (first day nth : ℕ)
    → day < 7
    → 1 ≤ nth
    → ((first + ((day + 7 - (first + 6) % 7) % 7 + 7 * (nth - 1)) + 6) % 7 ≡ day)
      × ((first + 7 * (nth - 1) ≤ first + ((day + 7 - (first + 6) % 7) % 7 + 7 * (nth - 1)))
          × (first + ((day + 7 - (first + 6) % 7) % 7 + 7 * (nth - 1)) < first + 7 * nth))
shift first day nth d n = (omega arith, (omega arith, omega arith))

back :
    (x : ℕ)
    → 24 ≤ x
    → ((x - (x + 6) % 7 + 6) % 7 ≡ 0) × ((x - (x + 6) % 7 ≤ x) × (x < x - (x + 6) % 7 + 7))
back x l = (omega arith, (omega arith, omega arith))

late_enough : (year : ℕ) → 24 ≤ date year 5 24
unfolding date
late_enough year = omega arith

-- The n-th given weekday of a month, n from 1 on, is on that weekday and in the n-th seven days of
-- the month; Victoria Day is the Monday among the seven days up to May 24.
pub nth_weekday_lem :
    (year month day nth : ℕ)
    → day < 7
    → 1 ≤ nth
    → ((weekday (nth_weekday year month day nth) ≡ day)
        × ((date year month 1 + 7 * (nth - 1) ≤ nth_weekday year month day nth)
            × (nth_weekday year month day nth < date year month 1 + 7 * nth)))
      × ((weekday (victoria_day year) ≡ 0)
          × ((victoria_day year ≤ date year 5 24) × (date year 5 24 < victoria_day year + 7)))
unfolding weekday nth_weekday victoria_day
nth_weekday_lem year month day nth d n =
    (shift (date year month 1) day nth d n, back (date year 5 24) (late_enough year))
