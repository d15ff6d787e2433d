-- ===== src/Clock/Bounds.antt =====
-- Ranges of the parts of an instant.
use goreminder.Prelude.{ℕ, ◌-◌, ◌≤◌, ◌<◌, ◌≡◌, Bool, false, arith}
use goreminder.Clock.{Time, date_of, weekday}
use goreminder.Clock.Civil.{
  days_before, month_day, year_month_day, day_of_year, is_leap_date, month_of, day_of_month,
}

pub weekday-lt : (t : Time) → weekday t < 7
unfolding weekday
weekday-lt t = omega arith

abbrev InYear : ℕ × ℕ → Type 0
InYear md = ((1 ≤ md.0) × (md.0 ≤ 12)) × ((1 ≤ md.1) × (md.1 ≤ 31))

month_day-InYear : (d : ℕ) → d < 365 → InYear (month_day d)
unfolding month_day days_before
month_day-InYear d h = ground arith

year_month_day-InYear :
    (leap : Bool) (d : ℕ) → d < 366 → (leap ≡ false → d < 365) → InYear (year_month_day leap d)
unfolding year_month_day
year_month_day-InYear leap d h k = ground (arith, month_day-InYear d, month_day-InYear (d - 1))

-- A common year has 365 days.
day_of_year_range :
    (date : ℕ) → (day_of_year date < 366) × (is_leap_date date ≡ false → day_of_year date < 365)
unfolding day_of_year is_leap_date
day_of_year_range date = ground arith

-- t.Month() and t.Day() are in range.
pub month_day_range : (t : Time) → InYear (month_of t, day_of_month t)
unfolding month_of day_of_month
month_day_range t =
    let (a, b) = day_of_year_range (date_of t) in
    year_month_day-InYear (is_leap_date (date_of t)) (day_of_year (date_of t)) a b
