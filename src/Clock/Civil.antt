-- ===== src/Clock/Civil.antt =====
-- The month and the day of the month of an instant, as package time computes them from the
-- days since 0001-01-01.
use goreminder.Prelude.{ℕ, ◌+◌, ◌-◌, ◌*◌, ◌/◌, ◌%◌, Bool, ◌&&◌, ◌||◌, ltb, leb, ◌==◌, if◌then◌else◌}
use goreminder.Clock.{Time, date_of}

-- the days left after whole blocks of `size` days, of which at most `most` are taken
abbrev after_blocks : ℕ → ℕ → ℕ → ℕ
after_blocks size most d = d - size * (if ltb most (d / size) then most else d / size)

-- days since the first day of the cycle of 400 years, of 100, of 4, and of the year
unfoldable pub day_of_year : ℕ → ℕ
day_of_year date = after_blocks 365 3 (after_blocks 36524 3 (date % 146097) % 1461)

-- A year of the cycle has 366 days when it is the fourth of its four, unless these end a
-- century that does not end the cycle.
unfoldable pub is_leap_date : ℕ → Bool
is_leap_date date =
    let in_cycle = date % 146097 in
    let in_century = after_blocks 36524 3 in_cycle in
    leb 1095 (in_century % 1461) && (ltb in_century 35064 || leb 109572 in_cycle)

-- days before the month, in a common year
unfoldable pub days_before : ℕ → ℕ
days_before m =
    if m == 1
    then 0
    else if m == 2
    then 31
    else if m == 3
    then 59
    else if m == 4
    then 90
    else if m == 5
    then 120
    else if m == 6
    then 151
    else if m == 7
    then 181
    else if m == 8
    then 212
    else if m == 9
    then 243
    else if m == 10
    then 273
    else if m == 11
    then 304
    else if m == 12
    then 334
    else 365

-- the month and day of a day of a common year
unfoldable pub month_day : ℕ → ℕ × ℕ
month_day d =
    let m = d / 31 + 1 in
    if leb (days_before (m + 1)) d
    then (m + 1, d - days_before (m + 1) + 1)
    else (m, d - days_before m + 1)

-- the month and day of a day of the year
unfoldable pub year_month_day : Bool → ℕ → ℕ × ℕ
year_month_day leap d =
    if leap && (d == 59)
    then (2, 29)
    else if leap && ltb 59 d
    then month_day (d - 1)
    else month_day d

-- t.Month() and t.Day()
unfoldable pub month_of : Time → ℕ
month_of t = (year_month_day (is_leap_date (date_of t)) (day_of_year (date_of t))).0

unfoldable pub day_of_month : Time → ℕ
day_of_month t = (year_month_day (is_leap_date (date_of t)) (day_of_year (date_of t))).1
