-- ===== src/Clock.antt =====
-- Go's time.Time as nanoseconds since 0001-01-01 00:00:00 UTC, the zero time, and the
-- functions of package time that the program calls. Earlier instants are not represented.
pub mod Civil
pub mod Bounds
use goreminder.Prelude.{ℕ, ◌+◌, ◌*◌, ◌/◌, ◌%◌, Bool, ltb, ◌==◌}

abbrev pub Time : Type 0
Time = ℕ

-- time.Second, time.Minute, time.Hour and 24 * time.Hour
abbrev pub second : ℕ
second = 1_000_000_000

abbrev pub minute : ℕ
minute = 60_000_000_000

abbrev pub hour : ℕ
hour = 3_600_000_000_000

abbrev pub day : ℕ
day = 86_400_000_000_000

abbrev pub is_zero : Time → Bool
is_zero t = t == 0

-- t.Before(u)
abbrev pub before : Time → Time → Bool
before t u = ltb t u

-- t.After(u)
abbrev pub after : Time → Time → Bool
after t u = ltb u t

-- The days since 0001-01-01 stand for Year, Month and Day together.
unfoldable pub date_of : Time → ℕ
date_of t = t / day

unfoldable pub hour_of : Time → ℕ
hour_of t = t % day / hour

unfoldable pub minute_of : Time → ℕ
minute_of t = t % hour / minute

unfoldable pub second_of : Time → ℕ
second_of t = t % minute / second

-- time.Date with the year, month and day of a date, no nanoseconds, in UTC
unfoldable pub date_time : ℕ → ℕ → ℕ → ℕ → Time
date_time date h m s = date * day + h * hour + m * minute + s * second

-- time.Weekday: 0 is Sunday, and 0001-01-01 was a Monday
unfoldable pub weekday : Time → ℕ
weekday t = (date_of t + 1) % 7
