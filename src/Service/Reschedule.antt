-- ===== src/Service/Reschedule.antt =====
-- internal/service/task_service.go: RescheduleTask, RescheduleTasks and RescheduleCronTasks, and
-- RunScheduledRescheduling of task_scheduler.go with its two queries.
pub mod Days
pub mod Rollback
pub mod Silent
use goreminder.Prelude.{
  ℕ, zero, suc, ◌+◌, ◌/◌, Bool, true, false, not, ◌&&◌, ◌||◌, Option, none, some, List, [], ◌∷◌,
  is_some, null, ◌==◌, if◌then◌else◌,
}
use goreminder.Text.{Text, codes}
use goreminder.Errors.{Err, Outcome, ok, err, panicked, not_found_as_unprocessable, ◌>>=◌ as ◌>=>◌}
use goreminder.Clock.{Time, day, before, after, date_of}
use goreminder.Models.{Task, status_scheduled, status_rescheduled, status_postponed}
use goreminder.Queue.{TaskEvent}
use goreminder.Recurrence.Rules.{Libraries, recurrence_field_set, has_recurrence_rule}
use goreminder.Recurrence.Next.{
  cron_next, next_recurrence_after, next_start_from_rrule, text_or_empty,
}
use goreminder.Service.World.{
  Env, World, Value, text, time, M, pure, raise, lift, attempt, map_err, gets, best_effort, outside,
  time_now, ◌>>=◌, ◌>>◌,
}
use goreminder.Service.Repository.{has_status, is_live, filter, get_task_any_status, update_task}
use goreminder.Service.Publish.{
  get_messenger_related_user, messenger_name_from_related_user, publish_task_event, require_related,
  schedule_event,
}
use goreminder.Service.Effects.{history_of, record_history}

-- The loop that adds 24 hours until the date is in the future, with fuel for its turns.
unfoldable pub add_days_until : ℕ → Time → Time → Time
add_days_until zero now t = t
add_days_until (suc fuel) now t = elim (after t now) [
  | true ↦ t
  | false ↦ add_days_until fuel now (t + day)
]

-- The same time of the first day after that is in the future: `now / day + 1` turns are enough.
unfoldable pub next_day_same_time : Time → Time → Time
next_day_same_time now start = add_days_until (suc (now / day)) now (start + day)

-- what the next occurrence of the parent makes of the new date; its error is logged
unfoldable pub follow_parent : Task → Time → Outcome Time → Outcome Time
follow_parent task start (ok next) =
    if task.muted then ok next else if date_of start == date_of next then ok next else ok start
follow_parent task start (err x) = ok start
follow_parent task start panicked = panicked

unfoldable pub rescheduled_start : Libraries → Task → Option Task → Time → Outcome Time
rescheduled_start lib task none now = ok (next_day_same_time now task.start_date)
rescheduled_start lib task (some parent) now =
    if has_recurrence_rule parent
    then follow_parent task (next_day_same_time now task.start_date)
        (next_recurrence_after lib parent now)
    else ok (next_day_same_time now task.start_date)

-- WHERE of GetTasksNeedingRescheduling
unfoldable pub needs_rescheduling : (ℕ → Bool) → Time → Task → Bool
needs_rescheduling imported now row =
    is_live row
    && (has_status row status_scheduled
        || has_status row status_rescheduled
        || has_status row status_postponed)
    && ((not (is_some row.cron_expression) && not (is_some row.rrule)) || is_some row.parent_id)
    && before row.start_date now
    && not (imported row.id)

-- WHERE of GetTasksWithCronNeedingRescheduling
unfoldable pub cron_needs_rescheduling : (ℕ → Bool) → Time → Task → Bool
cron_needs_rescheduling imported now row =
    is_live row
    && has_status row status_scheduled
    && (is_some row.cron_expression || is_some row.rrule)
    && not row.requires_confirmation
    && before row.start_date now
    && not (imported row.id)

module _ (e : Env) where
  unfoldable pub load_parent_of : Option ℕ → M (Option Task)
  load_parent_of none = pure none
  load_parent_of (some id) = do parent ← get_task_any_status e id; pure (some parent)

  -- the event is one-shot: it carries no recurrence
  unfoldable pub publish_rescheduled : Task → Time → M (Unit {0})
  publish_rescheduled task start = do
    id ← require_related e task.messenger_related_user_id
    related ← map_err not_found_as_unprocessable (get_messenger_related_user e id)
    name ← messenger_name_from_related_user e related
    publish_task_event e task (schedule_event task start none none name related.chat_id)

  abbrev pub start_and_status : Task → List (Text × Value)
  start_and_status task =
      (codes "start_date", time task.start_date) ∷ (codes "status", text task.status) ∷ []

  abbrev pub rescheduled : Task → Time → Task
  rescheduled task start = record task { start_date = start; status = status_rescheduled }

  -- the queue first, then the row, so that a failure of the queue leaves the row
  unfoldable pub reschedule_task : Task → M (Unit {0})
  reschedule_task task = do
    now ← time_now e
    parent ← load_parent_of task.parent_id
    start ← lift (rescheduled_start e.lib task parent now)
    publish_rescheduled task start
    update_task e (rescheduled task start)
    record_history e (
        history_of task (codes "updated") (start_and_status task)
          (start_and_status (rescheduled task start)))

  -- the failures are counted in the log only
  unfoldable pub reschedule_tasks : List Task → M (Unit {0})
  reschedule_tasks [] = pure tt
  reschedule_tasks (task ∷ tasks) = do best_effort (reschedule_task task); reschedule_tasks tasks

  unfoldable pub series_start : Task → Time → Outcome (Option Time)
  series_start task now =
      if recurrence_field_set task.cron_expression
      then (cron_next e.lib (text_or_empty task.cron_expression) now >=> λ t. ok (some t))
      else if recurrence_field_set task.rrule
      then (next_start_from_rrule e.lib now (text_or_empty task.rrule) task.start_date >=> λ t.
          ok (some t))
      else ok none

  unfoldable pub store_series_start : Task → Outcome (Option Time) → M (Unit {0})
  store_series_start task panicked = lift panicked
  store_series_start task (err x) = pure tt
  store_series_start task (ok none) = pure tt
  store_series_start task (ok (some start)) =
      best_effort (update_task e (record task { start_date = start }))

  unfoldable pub reschedule_cron_tasks : List Task → M (Unit {0})
  reschedule_cron_tasks [] = pure tt
  reschedule_cron_tasks (task ∷ tasks) = do
    now ← time_now e
    store_series_start task (series_start task now)
    reschedule_cron_tasks tasks

  unfoldable pub get_tasks_needing_rescheduling : M (List Task)
  get_tasks_needing_rescheduling = do
    now ← time_now e
    outside e
    gets (λ w. filter (needs_rescheduling e.is_imported now) w.tasks)

  unfoldable pub get_tasks_with_cron_needing_rescheduling : M (List Task)
  get_tasks_with_cron_needing_rescheduling = do
    now ← time_now e
    outside e
    gets (λ w. filter (cron_needs_rescheduling e.is_imported now) w.tasks)

  unfoldable pub reschedule_found : List Task → M (Unit {0})
  reschedule_found tasks = if null tasks then pure tt else do
    reschedule_tasks tasks
    series ← get_tasks_with_cron_needing_rescheduling
    (if null series then pure tt else reschedule_cron_tasks series)

  unfoldable pub run_scheduled_rescheduling : M (Unit {0})
  run_scheduled_rescheduling = do tasks ← get_tasks_needing_rescheduling; reschedule_found tasks
