-- ===== src/Examples/Recurrences.antt =====
-- Examples of task_recurrence.go, task_pre_remind.go and pkg/queue.
use goreminder.Prelude.{◌+◌, ◌*◌, ◌<◌, ◌≡◌, refl, none, some, List, [], ◌∷◌, arith}
use goreminder.Prelude.Int.{pos}
use goreminder.Text.{
  Text, codes, atoi, unsigned_value, digits_value, is_digit, contains_any, itoa, itoa_fuel,
  trim_space, trim_left, trim_right, is_space,
}
use goreminder.Errors.{ok}
use goreminder.Clock.{Time, hour, day, weekday, date_of}
use goreminder.Models.{Task}
use goreminder.PreRemind.{
  apply_pre_remind_update, validate_pre_remind, IsOffset, apply_pre_remind_update-IsOffset,
}
use goreminder.Recurrence.Rules.{recurrence_field_set}
use goreminder.Recurrence.Next.{
  cron_next, next_recurrence_after, advance_if_before, next_executable_start_date, text_or_empty,
}
use goreminder.Recurrence.Next.Advance.{
  Ahead, HasNext, next_recurrence_after-lt, next_executable_start_date-Ahead,
}
use goreminder.Recurrence.Shift.{single_cron_number, shift_cron_fields, shift_cron_parts}
use goreminder.Recurrence.Shift.Cron.{shift_cron_parts-again}
use goreminder.Examples.{value_at, value_at-same, hourly, hourly-Advances, reminder, weekly}

-- "0 9 * * 1"
abbrev monday_morning : List Text
monday_morning = codes "0" ∷ codes "9" ∷ codes "*" ∷ codes "*" ∷ codes "1" ∷ []

-- the same on a Wednesday
abbrev wednesday_morning : List Text
wednesday_morning = codes "0" ∷ codes "9" ∷ codes "*" ∷ codes "*" ∷ codes "3" ∷ []

shifted_to_wednesday : shift_cron_parts monday_morning (2 * day) ≡ ok wednesday_morning
unfolding shift_cron_parts shift_cron_fields single_cron_number contains_any atoi unsigned_value
    digits_value is_digit itoa itoa_fuel weekday date_of
shifted_to_wednesday = refl

shift_cron_parts-again_example :
    shift_cron_parts wednesday_morning (4 * day) ≡ shift_cron_parts monday_morning (4 * day)
shift_cron_parts-again_example =
    shift_cron_parts-again monday_morning wednesday_morning (2 * day) (4 * day) shifted_to_wednesday

has_next : (s : Text) (now : Time) → HasNext hourly s now
unfolding value_at
has_next [] now next e = cc
has_next (c ∷ s) now next e =
    let same : now + hour ≡ next now = value_at-same (hourly.parse_cron (c ∷ s)) next now e in
    λ z. absurd (omega (arith, same, z))

weekly_next : next_recurrence_after hourly weekly (20 * day) ≡ ok (20 * day + hour)
unfolding next_recurrence_after recurrence_field_set cron_next advance_if_before trim_space
    trim_left trim_right is_space
weekly_next = refl

next_recurrence_after-lt_example : 20 * day < 20 * day + hour
next_recurrence_after-lt_example =
    next_recurrence_after-lt hourly hourly-Advances weekly (20 * day) (20 * day + hour)
      (has_next (codes "0 9 * * 1") (20 * day)) weekly_next

no_parent : (p : Task) → none ≡ some p → HasNext hourly (text_or_empty p.cron_expression) (5 * day)
no_parent p e = has_next (text_or_empty p.cron_expression) (5 * day)

own_start : next_executable_start_date hourly reminder none (5 * day) ≡ ok (10 * day + 9 * hour)
unfolding next_executable_start_date
own_start = refl

next_executable_start_date-Ahead_example : Ahead (5 * day) (10 * day + 9 * hour)
next_executable_start_date-Ahead_example =
    next_executable_start_date-Ahead hourly hourly-Advances reminder none (5 * day)
      (10 * day + 9 * hour) no_parent own_start

ten_minutes : IsOffset reminder.pre_remind_before_seconds
ten_minutes = (refl, refl)

cleared :
    apply_pre_remind_update reminder (some (pos 0))
    ≡ ok (record reminder { pre_remind_before_seconds = none })
unfolding apply_pre_remind_update validate_pre_remind
cleared = refl

apply_pre_remind_update-IsOffset_example :
    IsOffset none
    × (record reminder { pre_remind_before_seconds = reminder.pre_remind_before_seconds }
        ≡ reminder)
apply_pre_remind_update-IsOffset_example =
    apply_pre_remind_update-IsOffset reminder (record reminder { pre_remind_before_seconds = none })
      (some (pos 0)) ten_minutes cleared
