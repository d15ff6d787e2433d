-- ===== src/Examples/Calendars.antt =====
-- Examples of calendar_sync_helpers.go.
use goreminder.Prelude.{◌≡◌, refl, All, false, some, null, [], ◌∷◌}
use goreminder.Text.{
  codes, contains_any, trim_space, trim_left, trim_right, is_space, to_upper, upper, has_prefix,
  contains, split, atoi, unsigned_value, digits_value, is_digit,
}
use goreminder.Calendar.Rule.{recurrence_to_rrule, rrule_to_recurrence}
use goreminder.Calendar.Rule.RoundTrip.{recurrence_to_rrule-rrule_to_recurrence}
use goreminder.Calendar.Cron.{
  expand_cron_int_list, expand_pieces, expand_piece, from_to, rule_of_fields, rule_of_parts,
}
use goreminder.Calendar.Cron.Bounds.{Within, expand_cron_int_list-Within}

not_blank : null (trim_space (codes " FREQ=DAILY")) ≡ false
unfolding trim_space trim_left trim_right is_space
not_blank = refl

no_prefix : has_prefix (to_upper (trim_space (codes " FREQ=DAILY"))) (codes "RRULE:") ≡ false
unfolding trim_space trim_left trim_right is_space has_prefix to_upper upper
no_prefix = refl

recurrence_to_rrule-rrule_to_recurrence_example :
    recurrence_to_rrule (rrule_to_recurrence (some (codes " FREQ=DAILY")))
    ≡ some (trim_space (codes " FREQ=DAILY"))
recurrence_to_rrule-rrule_to_recurrence_example =
    recurrence_to_rrule-rrule_to_recurrence (codes " FREQ=DAILY") not_blank no_prefix

first_days : expand_cron_int_list (codes "1-3,15") 1 31 ≡ some (1 ∷ 2 ∷ 3 ∷ 15 ∷ [])
unfolding expand_cron_int_list expand_pieces expand_piece from_to trim_space trim_left trim_right
    is_space contains has_prefix split atoi unsigned_value digits_value is_digit
first_days = refl

expand_cron_int_list-Within_example : All (Within 1 31) (1 ∷ 2 ∷ 3 ∷ 15 ∷ [])
expand_cron_int_list-Within_example =
    expand_cron_int_list-Within (codes "1-3,15") 1 31 (1 ∷ 2 ∷ 3 ∷ 15 ∷ []) first_days

-- each minute of the hour becomes one event a day
every_minute :
    rule_of_parts (codes "*" ∷ codes "9" ∷ codes "*" ∷ codes "*" ∷ codes "*" ∷ [])
    ≡ some (codes "FREQ=DAILY")
unfolding rule_of_parts rule_of_fields has_prefix contains_any
every_minute = refl
