-- ===== src/Sync/Fields.antt =====
-- MapEventToTaskFields of internal/service/calendar_sync_helpers.go, and
-- internal/service/calendar_sync_history.go: what an import compares and records.
use goreminder.Prelude.{
  ℕ, Bool, true, false, not, ◌||◌, Option, none, some, List, [], ◌∷◌, ◌++◌, null, ◌==◌,
  if◌then◌else◌,
}
use goreminder.Text.{Text, codes, text_eq, trim_space}
use goreminder.Errors.{Outcome, ok, err, panicked, other, ◌>>=◌}
use goreminder.Clock.{Time, is_zero, after}
use goreminder.Models.{Task, status_scheduled, status_done}
use goreminder.Recurrence.Rules.{Libraries}
use goreminder.Recurrence.Next.{next_start_from_rrule}
use goreminder.Calendar.Rule.{recurrence_to_rrule}
use goreminder.Service.World.{Value, number, text, flag, time}
use goreminder.Sync.World.{SyncEnv}
use goreminder.Sync.Event.{Event, event_start_time, event_end_time}

abbrev moved_start : Time → Outcome Time → Outcome Time
moved_start start (ok next) = ok next
moved_start start (err x) = ok start
moved_start start panicked = panicked

-- a series whose start is past goes on at its next occurrence, if it has one
unfoldable pub import_start : Libraries → Time → Option Text → Time → Outcome Time
import_start lib now none start = ok start
import_start lib now (some rule) start =
    if after start now
    then ok start
    else moved_start start (next_start_from_rrule lib now rule start)

abbrev pub or_start : Time → Time → Option Time → Time
or_start now start none = start
or_start now start (some end) = if not (after end now) then end else start

abbrev titled : Text → Text
titled title = if null title then codes "(untitled event)" else title

-- the task of an event that starts at `start`: a past one is done
unfoldable pub imported_task : SyncEnv → ℕ → Option ℕ → Option ℕ → Event → Time → Time → Task
imported_task e user group related ev now start = record {
  id = 0;
  title = titled (trim_space ev.summary);
  description = ev.description;
  user_id = user;
  messenger_related_user_id = related;
  parent_id = none;
  group_id = group;
  start_date = start;
  finish_date =
      if after start now then none else some (or_start now start (event_end_time e.parse_date ev));
  cron_expression = none;
  rrule = recurrence_to_rrule ev.recurrence;
  requires_confirmation = false;
  muted = false;
  shift_from_completion = false;
  skip_digest = false;
  pre_remind_before_seconds = none;
  status = if after start now then status_scheduled else status_done;
  deleted_at = none;
  history_source = [];
}

abbrev pub started : Option Time → Outcome Time
started none = err other
started (some t) = ok t

-- an event without a start is an error
unfoldable pub map_event_to_task_fields :
    SyncEnv → ℕ → Option ℕ → Option ℕ → Event → Time → Outcome Task
map_event_to_task_fields e user group related ev now = do
  given ← started (event_start_time e.parse_date ev)
  start ← import_start e.base.lib now (recurrence_to_rrule ev.recurrence) given
  ok (imported_task e user group related ev now start)

-- recurrencePtrsEqual
unfoldable pub recurrence_ptrs_equal : Option Text → Option Text → Bool
recurrence_ptrs_equal none none = true
recurrence_ptrs_equal none (some b) = false
recurrence_ptrs_equal (some a) none = false
recurrence_ptrs_equal (some a) (some b) = text_eq a b

abbrev pub differ : Option ℕ → Option ℕ → Bool
differ none none = false
differ none (some b) = true
differ (some a) none = true
differ (some a) (some b) = not (a == b)

-- what is recorded as an update of more than the status
unfoldable pub non_status_changed : Task → Task → Bool
non_status_changed old new =
    not (text_eq old.title new.title)
    || not (text_eq old.description new.description)
    || not (old.start_date == new.start_date)
    || not (recurrence_ptrs_equal old.rrule new.rrule)
    || differ old.group_id new.group_id
    || differ old.messenger_related_user_id new.messenger_related_user_id
    || differ old.finish_date new.finish_date

abbrev flag_differs : Bool → Bool → Bool
flag_differs true b = not b
flag_differs false b = b

unfoldable pub calendar_imported_fields_changed : Task → Task → Bool
calendar_imported_fields_changed old new =
    not (text_eq old.title new.title)
    || not (text_eq old.description new.description)
    || not (old.start_date == new.start_date)
    || not (recurrence_ptrs_equal old.rrule new.rrule)
    || not (text_eq old.status new.status)
    || differ old.finish_date new.finish_date
    || differ old.group_id new.group_id
    || differ old.messenger_related_user_id new.messenger_related_user_id
    || flag_differs old.muted new.muted

abbrev optional : {A : Type 0} → Text → (A → Value) → Option A → List (Text × Value)
optional key f none = []
optional key f (some a) = (key, f a) ∷ []

abbrev pub source_entry : Text × Value
source_entry = (codes "source", text (codes "google_calendar"))

unfoldable pub calendar_task_history_map : Task → List (Text × Value)
calendar_task_history_map t =
    (codes "id", number t.id)
    ∷ (codes "title", text t.title)
    ∷ (codes "description", text t.description)
    ∷ (codes "status", text t.status)
    ∷ (codes "requires_confirmation", flag t.requires_confirmation)
    ∷ (codes "muted", flag t.muted)
    ∷ source_entry
    ∷ ((if is_zero t.start_date then [] else (codes "start_date", time t.start_date) ∷ [])
        ++ (optional (codes "finish_date") time t.finish_date
            ++ (optional (codes "cron_expression") text t.cron_expression
                ++ (optional (codes "rrule") text t.rrule
                    ++ (optional (codes "messenger_related_user_id") number
                          t.messenger_related_user_id
                        ++ (optional (codes "parent_id") number t.parent_id
                            ++ optional (codes "group_id") number t.group_id))))))
