-- ===== src/Calendar/Rule/RoundTrip.antt =====
-- RRuleToRecurrence and then RecurrenceToRRule (internal/service/calendar_sync_helpers.go).
use goreminder.Prelude.{◌≡◌, false, some, [], ◌∷◌, ◌++◌, null, arith}
use goreminder.Text.{
  Text, trim_space, trim_left, trim_right, is_space, to_upper, upper, has_prefix, drop,
}
use goreminder.Text.Trim.{trim_space-trim_space}
use goreminder.Calendar.Rule.{rrule_prefix, recurrence_to_rrule, rrule_to_recurrence}

-- the line that is written for a rule without the prefix
prefixed_line :
    (rule : Text)
    → trim_space rule ≡ rule
    → null rule ≡ false
    → recurrence_to_rrule ((rrule_prefix ++ rule) ∷ []) ≡ some rule
unfolding recurrence_to_rrule drop has_prefix to_upper upper trim_space trim_left trim_right
    is_space
prefixed_line rule t n = ground arith

-- A rule that is not blank and has no prefix of its own comes back from the calendar as it was
-- sent, but for the spaces around it.
pub recurrence_to_rrule-rrule_to_recurrence :
    (rule : Text)
    → null (trim_space rule) ≡ false
    → has_prefix (to_upper (trim_space rule)) rrule_prefix ≡ false
    → recurrence_to_rrule (rrule_to_recurrence (some rule)) ≡ some (trim_space rule)
unfolding rrule_to_recurrence
recurrence_to_rrule-rrule_to_recurrence rule n p =
    ground (arith, prefixed_line (trim_space rule) (trim_space-trim_space rule))
