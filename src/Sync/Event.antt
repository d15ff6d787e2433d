-- ===== src/Sync/Event.antt =====
-- The events of pkg/googlecalendar/client.go, and what internal/service/calendar_sync_helpers.go
-- makes of them. Times are in UTC, so that a conversion to UTC is left out.
pub mod RoundTrip
use goreminder.Prelude.{
  ℕ, ◌+◌, ◌-◌, ◌*◌, ◌/◌, ◌%◌, Bool, true, false, not, ◌&&◌, ◌||◌, Option, none, some, List, [], ◌∷◌,
  null, ltb, leb, if◌then◌else◌,
}
use goreminder.Prelude.Int.{ℤ, pos, negsuc, sub_ℕ, leb_ℤ, ltb_ℤ}
use goreminder.Text.{Text, codes, trim_space, itoa, atoi}
use goreminder.Errors.{Outcome, ok, err, panicked, other, ◌>>=◌}
use goreminder.Clock.{Time, second, minute, after}
use goreminder.Models.{Task, status_scheduled, status_done}
use goreminder.Recurrence.Rules.{Libraries, recurrence_field_set}
use goreminder.Recurrence.Next.{next_start_from_rrule}
use goreminder.Calendar.Rule.{recurrence_to_rrule, rrule_to_recurrence}
use goreminder.Calendar.Cron.{cron_expression_to_rrule}

pub record EventDateTime : Type 0 where
  pub date_time : Option Time
  pub date : Text
  pub time_zone : Text

-- `task_id_property` is the private extended property goreminder_task_id, the only one read.
pub record Event : Type 0 where
  pub id : Text
  pub summary : Text
  pub description : Text
  pub start : EventDateTime
  pub end : EventDateTime
  pub status : Text
  pub etag : Text
  pub updated : Time
  pub recurrence : List Text
  pub task_id_property : Option Text

-- an int64 of nanoseconds, with its wrap-around
abbrev pub int64 : ℕ → ℤ
int64 n =
    if ltb (n % 18446744073709551616) (9223372036854775808)
    then pos (n % 18446744073709551616)
    else negsuc (18446744073709551616 - n % 18446744073709551616 - 1)

-- the same for a negative product
abbrev pub wrapped : ℤ → ℕ → ℤ
wrapped (pos n) unit = int64 (n * unit)
wrapped (negsuc n) unit = int64 (18446744073709551616 - ((n + 1) * unit) % 18446744073709551616)

-- Time.Add; a time before the first one of `Time` is not represented
abbrev pub add_duration : Time → ℤ → Time
add_duration t (pos d) = t + d
add_duration t (negsuc d) = t - (d + 1)

-- Time.Sub, which stops at the ends of int64
abbrev pub sub_time : Time → Time → ℤ
sub_time t u =
    if leb u t
    then pos (if ltb (t - u) (9223372036854775808) then t - u else 9223372036854775808 - 1)
    else sub_ℕ 0 (if ltb (9223372036854775808) (u - t) then 9223372036854775808 else u - t)

-- int(d.Seconds()), rounded towards zero; none where it is negative
abbrev nonnegative_seconds : ℤ → Option ℤ
nonnegative_seconds (pos d) = some (pos (d / second))
nonnegative_seconds (negsuc d) = if ltb (d + 1) second then some (pos 0) else none

module _ (parse_date : Text → Option Time) where
  abbrev pub time_or : EventDateTime → Option Time → Option Time
  time_or t none = if null t.date then none else parse_date t.date
  time_or t (some at) = some at

  unfoldable pub event_start_time : Event → Option Time
  event_start_time ev = time_or ev.start ev.start.date_time

  unfoldable pub event_end_time : Event → Option Time
  event_end_time ev = time_or ev.end ev.end.date_time

  abbrev between : Option Time → Option Time → Option ℤ
  between none end = none
  between (some start) none = none
  between (some start) (some end) = nonnegative_seconds (sub_time end start)

  unfoldable pub event_duration_seconds : Event → Option ℤ
  event_duration_seconds ev = between (event_start_time ev) (event_end_time ev)

abbrev parsed_id : Option ℤ → Option ℤ
parsed_id none = none
parsed_id (some n) = some n

-- the property goreminder_task_id as a number
unfoldable pub task_id_from_extended_properties : Option Text → Option ℤ
task_id_from_extended_properties none = none
task_id_from_extended_properties (some raw) = if null raw then none else atoi raw

-- the duration of an export in nanoseconds
abbrev pub longer_finish : Option Time → Time → ℤ → ℤ
longer_finish none start d = d
longer_finish (some finish) start d = if after finish start then sub_time finish start else d

abbrev pub export_duration : Option ℤ → Task → ℤ → ℤ
export_duration none task d = longer_finish task.finish_date task.start_date d
export_duration (some s) task d =
    if ltb_ℤ (pos 0) s then wrapped s second else longer_finish task.finish_date task.start_date d

abbrev pub default_minutes : ℤ → ℤ
default_minutes m = if leb_ℤ m (pos 0) then pos 30 else m

abbrev rule_of_cron : Libraries → Option Text → Option Text
rule_of_cron lib none = none
rule_of_cron lib (some s) = cron_expression_to_rrule lib s

unfoldable pub export_rule : Libraries → Task → Option Text
export_rule lib task =
    if not (recurrence_field_set task.rrule) && recurrence_field_set task.cron_expression
    then rule_of_cron lib task.cron_expression
    else task.rrule

abbrev pub at_utc : Time → EventDateTime
at_utc t = record { date_time = some t; date = []; time_zone = codes "UTC" }

unfoldable pub build_export_event : Libraries → Task → ℤ → Option ℤ → Event
build_export_event lib task duration_minutes existing = record {
  id = [];
  summary = task.title;
  description = task.description;
  start = at_utc task.start_date;
  end = at_utc (
      add_duration task.start_date
        (export_duration existing task (wrapped (default_minutes duration_minutes) minute)));
  status = [];
  etag = [];
  updated = 0;
  recurrence = rrule_to_recurrence (export_rule lib task);
  task_id_property = some (itoa task.id);
}
