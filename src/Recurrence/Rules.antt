-- ===== src/Recurrence/Rules.antt =====
-- internal/service/task_recurrence.go: when a recurrence field counts as set, as changed and as
-- valid. The packages cronexpr, robfig/cron and rrule-go are the parameter `Libraries`.
use goreminder.Prelude.{
  Bool, false, not, ◌&&◌, ◌||◌, Option, none, some, List, [], null, if◌then◌else◌,
}
use goreminder.Prelude.Int.{ℤ}
use goreminder.Text.{Text, text_eq, trim_space}
use goreminder.Errors.{Outcome, ok, err, validation, other, ◌>>=◌}
use goreminder.Clock.{Time, is_zero}
use goreminder.Models.{Task}

-- rrulelib.Frequency
pub data Frequency : Type 0 where
  yearly monthly weekly daily hourly minutely secondly : Frequency

-- the fields of rrulelib.ROption that the program reads; of a weekday, its ordinal N()
pub record ROption : Type 0 where
  pub freq : Frequency
  pub dtstart : Time
  pub interval : ℤ
  pub count : ℤ
  pub until : Time
  pub bysetpos : List ℤ
  pub byyearday : List ℤ
  pub byweekno : List ℤ
  pub byhour : List ℤ
  pub byminute : List ℤ
  pub bysecond : List ℤ
  pub byeaster : List ℤ
  pub byweekday : List ℤ
  pub bymonthday : List ℤ
  pub bymonth : List ℤ

-- A parsed cron expression is its Next, and a rule is its After(_, false).
pub record Libraries : Type 0 where
  -- cronexpr.Parse; MustParse panics where it fails
  pub parse_cron : Text → Option (Time → Time)
  -- cron.ParseStandard
  pub is_standard_cron : Text → Bool
  -- rrulelib.StrToROption
  pub parse_rrule : Text → Option ROption
  -- rrulelib.NewRRule
  pub new_rrule : ROption → Option (Time → Time)

unfoldable pub recurrence_field_set : Option Text → Bool
recurrence_field_set none = false
recurrence_field_set (some s) = not (null (trim_space s))

abbrev trimmed_or_empty : Option Text → Text
trimmed_or_empty none = []
trimmed_or_empty (some s) = trim_space s

-- The first argument is the field of the update request, `none` where it was not provided.
unfoldable pub recurrence_field_changed : Option Text → Option Text → Bool
recurrence_field_changed none current = false
recurrence_field_changed (some updated) current =
    not (text_eq (trim_space updated) (trimmed_or_empty current))

unfoldable pub validate_exclusive : Option Text → Option Text → Outcome (Unit {0})
unfolding recurrence_field_set
validate_exclusive cron rrule =
    if recurrence_field_set cron && recurrence_field_set rrule then err validation else ok tt

unfoldable pub is_recurrence_parent_with_confirmation : Task → Bool
unfolding recurrence_field_set
is_recurrence_parent_with_confirmation t =
    if not t.requires_confirmation
    then false
    else recurrence_field_set t.cron_expression || recurrence_field_set t.rrule

unfoldable pub has_recurrence_rule : Task → Bool
unfolding recurrence_field_set
has_recurrence_rule t = recurrence_field_set t.cron_expression || recurrence_field_set t.rrule

abbrev pub from_option {ℓ} : {A : Type ℓ} → Option A → Outcome A
from_option none = err other
from_option (some a) = ok a

-- `opt.Dtstart = seriesStart` where the rule has none
unfoldable pub with_dtstart : Time → ROption → ROption
with_dtstart start opt = if is_zero opt.dtstart then record opt { dtstart = start } else opt

module _ (lib : Libraries) where
  open lib use {parse_rrule, new_rrule}

  -- the rule of a text, anchored at the start of the series
  unfoldable pub anchored_rule : Text → Time → Outcome (Time → Time)
  unfolding with_dtstart
  anchored_rule s start = do
    opt ← from_option (parse_rrule (trim_space s))
    from_option (new_rrule (with_dtstart start opt))

  unfoldable pub validate_rrule_string : Text → Time → Outcome (Unit {0})
  unfolding anchored_rule
  validate_rrule_string s start = do rule ← anchored_rule s start; ok tt
