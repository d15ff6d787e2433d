-- ===== src/Sync/Import/Merge.antt =====
-- The rows that an import makes (internal/service/calendar_sync_helpers.go and
-- calendar_sync_service.go).
use goreminder.Prelude.{
  ◌≡◌, ◌⊎◌, inl, inr, refl, ap, ◌∙◌, Bool, true, false, ◌&&◌, Option, none, some, ◌≤◌, ◌<◌, leb,
  arith, Bool-cases, if◌then◌else◌,
}
use mathlib.Core.Path.{subst, sym}
use goreminder.Text.{text_eq}
use goreminder.Errors.{Outcome, ok, err, panicked, ◌>>=◌}
use goreminder.Clock.{Time, after}
use goreminder.Models.{Task, status_scheduled, status_done}
use goreminder.Calendar.Scope.{
  Origin, imported, exported, other_origin, keep_exported_reminder_open,
  apply_imported_delivery_chat,
}
use goreminder.Calendar.Rule.{recurrence_to_rrule}
use goreminder.Sync.Export.{is_exported}
use goreminder.Sync.World.{SyncEnv, CalendarBinding}
use goreminder.Sync.Event.{Event, event_start_time, event_end_time}
use goreminder.Sync.Fields.{
  started, or_start, import_start, imported_task, map_event_to_task_fields,
}
use goreminder.Sync.Import.{merged}

Imports : SyncEnv → CalendarBinding → Event → Time → Outcome Task → Type 0
Imports e b ev now (ok t) =
    (start : Time) × (t
      ≡ imported_task e b.user_id b.group_id b.messenger_related_user_id ev now start)
Imports e b ev now (err x) = Unit
Imports e b ev now panicked = Unit

module _ (e : SyncEnv) (b : CalendarBinding) (ev : Event) (now : Time) where
  started-Imports :
      (r : Outcome Time)
      → Imports e b ev now (
          r >>= λ start.
          ok (imported_task e b.user_id b.group_id b.messenger_related_user_id ev now start))
  unfolding Imports
  started-Imports (ok start) = (start, refl)
  started-Imports (err x) = tt
  started-Imports panicked = tt

  given-Imports :
      (given : Outcome Time) (f : Time → Outcome Time)
      → Imports e b ev now (
          given >>= λ t. f t >>= λ start.
          ok (imported_task e b.user_id b.group_id b.messenger_related_user_id ev now start))
  unfolding Imports
  given-Imports (ok t) f = started-Imports (f t)
  given-Imports (err x) f = tt
  given-Imports panicked f = tt

  imported_of :
      (fields : Task)
      → map_event_to_task_fields e b.user_id b.group_id b.messenger_related_user_id ev now
        ≡ ok fields
      → (start : Time) × (fields
          ≡ imported_task e b.user_id b.group_id b.messenger_related_user_id ev now start)
  unfolding map_event_to_task_fields Imports
  imported_of fields h = subst (Imports e b ev now) h (
      given-Imports (started (event_start_time e.parse_date ev))
        (import_start e.base.lib now (recurrence_to_rrule ev.recurrence)))

or_start-past : (now start : Time) (end : Option Time) → start ≤ now → or_start now start end ≤ now
or_start-past now start none h = h
or_start-past now start (some end) h = ground arith

-- a task is scheduled for a later time, or done by now
abbrev IsSettled : Time → Task → Type 0
IsSettled now t =
    ((t.status ≡ status_scheduled) × (now < t.start_date) × (t.finish_date ≡ none))
    ⊎ ((t.status ≡ status_done)
        × (t.start_date ≤ now)
        × (finish : Time) × (t.finish_date ≡ some finish)
        × (finish ≤ now))

imported_task-IsSettled :
    (e : SyncEnv) (b : CalendarBinding) (ev : Event) (now start : Time)
    → IsSettled now (imported_task e b.user_id b.group_id b.messenger_related_user_id ev now start)
unfolding imported_task
imported_task-IsSettled e b ev now start = elim (Bool-cases (after start now)) [
  | inl y ↦ inl (ground arith, ground arith, ground arith)
  | inr n ↦
      let past : start ≤ now = ground arith in
      let before = or_start-past now start (event_end_time e.parse_date ev) past in
      inr (
        ground arith,
        past,
        or_start now start (event_end_time e.parse_date ev),
        ground arith,
        before,
      )
]

-- A task that MapEventToTaskFields makes from an event is either scheduled, with a start after
-- now and no finish date, or done, with a start and a finish date that are not after now.
pub map_event_to_task_fields-IsSettled :
    (e : SyncEnv) (b : CalendarBinding) (ev : Event) (now : Time) (fields : Task)
    → map_event_to_task_fields e b.user_id b.group_id b.messenger_related_user_id ev now ≡ ok fields
    → ((fields.status ≡ status_scheduled) × (now < fields.start_date) × (fields.finish_date ≡ none))
      ⊎ ((fields.status ≡ status_done)
          × (fields.start_date ≤ now)
          × (finish : Time) × (fields.finish_date ≡ some finish)
          × (finish ≤ now))
map_event_to_task_fields-IsSettled e b ev now fields h =
    let (start, same) = imported_of e b ev now fields h in
    subst (IsSettled now) (sym same) (imported_task-IsSettled e b ev now start)

-- what is merged, where `stays` says that the echo does not count
abbrev Merged : Bool → Task → Task → Task → Type 0
Merged stays fields task new =
    if stays
    then (new.status ≡ task.status)
      × (new.start_date ≡ task.start_date)
      × (new.finish_date ≡ task.finish_date)
      × (new.rrule ≡ task.rrule)
    else (new.status ≡ fields.status)
      × (new.start_date ≡ fields.start_date)
      × (new.rrule ≡ fields.rrule)

merged-Merged :
    (keep stays : Bool) (fields task : Task)
    → keep ≡ stays
    → Merged stays fields task (merged keep fields task)
unfolding merged apply_imported_delivery_chat
merged-Merged true true fields task h = (refl, refl, refl, refl)
merged-Merged false false fields task h = (refl, refl, refl)
merged-Merged true false fields task h = cc
merged-Merged false true fields task h = cc

echo-done :
    (now : Time) (t : Task) → IsSettled now t → text_eq t.status status_done ≡ leb t.start_date now
echo-done now t (inl (scheduled, later, _)) =
    ap (λ s. text_eq s status_done) scheduled ∙ sym (ground arith)
echo-done now t (inr (is_done, past, _, _, _)) =
    ap (λ s. text_eq s status_done) is_done ∙ sym (ground arith)

-- The echo of an exported reminder whose start is past does not close the task and does not move
-- it: status, start, finish date and rule stay. An event whose start is to come, and one that was
-- born in the calendar, give the task their status, start and rule.
pub merged-reminder :
    (e : SyncEnv) (b : CalendarBinding) (ev : Event) (now : Time) (origin : Origin)
    (fields task : Task)
    → map_event_to_task_fields e b.user_id b.group_id b.messenger_related_user_id ev now ≡ ok fields
    → let new = merged (keep_exported_reminder_open origin fields.status) fields task in
      if is_exported origin && leb fields.start_date now
      then (new.status ≡ task.status)
        × (new.start_date ≡ task.start_date)
        × (new.finish_date ≡ task.finish_date)
        × (new.rrule ≡ task.rrule)
      else (new.status ≡ fields.status)
        × (new.start_date ≡ fields.start_date)
        × (new.rrule ≡ fields.rrule)
unfolding keep_exported_reminder_open
merged-reminder e b ev now imported fields task h = merged-Merged false false fields task refl
merged-reminder e b ev now other_origin fields task h = merged-Merged false false fields task refl
merged-reminder e b ev now exported fields task h =
    merged-Merged (text_eq fields.status status_done) (leb fields.start_date now) fields task
      (echo-done now fields (map_event_to_task_fields-IsSettled e b ev now fields h))
