-- ===== src/Calendar/Rule.antt =====
-- RecurrenceToRRule and RRuleToRecurrence of internal/service/calendar_sync_helpers.go. nil is the
-- empty list.
pub mod RoundTrip
use goreminder.Prelude.{
  Bool, true, false, Option, none, some, List, [], ◌∷◌, ◌++◌, null, if◌then◌else◌,
}
use goreminder.Text.{Text, codes, trim_space, to_upper, has_prefix, drop}

abbrev pub rrule_prefix : Text
rrule_prefix = codes "RRULE:"

-- the test is on the trimmed line, the slice on the line itself
unfoldable pub recurrence_to_rrule : List Text → Option Text
recurrence_to_rrule [] = none
recurrence_to_rrule (line ∷ lines) =
    let rest = recurrence_to_rrule lines in
    let rule = trim_space (drop 6 line) in
    if has_prefix (to_upper (trim_space line)) rrule_prefix
    then if null rule then rest else some rule
    else rest

unfoldable pub rrule_to_recurrence : Option Text → List Text
rrule_to_recurrence none = []
rrule_to_recurrence (some rrule) =
    let rule = trim_space rrule in
    if null rule
    then []
    else if has_prefix (to_upper rule) rrule_prefix
    then rule ∷ []
    else (rrule_prefix ++ rule) ∷ []
