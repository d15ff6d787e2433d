-- ===== src/Service/Update.antt =====
-- internal/service/task_service.go: UpdateTask.
pub mod Request
pub mod Children
pub mod Checks
pub mod Refused
pub mod Rollback
use goreminder.Prelude.{
  ℕ, Bool, true, false, not, ◌&&◌, ◌||◌, Option, none, some, List, [], ◌∷◌, null, is_some, ◌==◌,
  if◌then◌else◌,
}
use goreminder.Text.{Text, codes}
use goreminder.Errors.{Err, Outcome, ok, err, panicked, other, validation, or_err}
use goreminder.Clock.{Time, before}
use goreminder.Models.{Task, status_deleted, status_scheduled}
use goreminder.Recurrence.Rules.{validate_exclusive}
use goreminder.Recurrence.Next.{next_recurrence_after}
use goreminder.Service.World.{Env, World, M, pure, raise, lift, attempt, time_now, ◌>>=◌, ◌>>◌}
use goreminder.Service.Repository.{
  has_status, insert_task, get_task, get_child_tasks, update_task as store_task, update_task_tx,
}
use goreminder.Service.Repository.Transaction.{transaction}
use goreminder.Service.Publish.{
  task_to_map, should_republish_after_unmute, touch_user_activity, notify_calendar_export,
}
use goreminder.Service.Effects.{
  new_child, history_of, status_history, record_history, publish_new_child,
}
use goreminder.Service.Series.{require_that, require_unlinked}
use goreminder.Service.Create.{check_rrule, validate_shift_from_completion_series}
use goreminder.Service.Mute.{publish_removal, republish}
use Request.{
  TaskUpdateRequest, Change, apply_request, status_changed, title_changed, description_changed,
  start_date_changed, recurrence_schedule_changed, pre_remind_changed, mute_transition, was_parent,
  is_parent, recurrence_removed, requires_confirmation_removed, requires_confirmation_added,
  enabling_shift, has_other_changes,
}
use Children.{sync_children, publish_child_schedules, delete_all_children, delete_open_children}

module _ (e : Env) where
  -- rejectShiftFromCompletionWhenLinked
  unfoldable pub reject_shift_when_linked : ℕ → M (Unit {0})
  reject_shift_when_linked id = if id == 0 then pure tt else require_unlinked e id

  -- the checks on the row after the request
  unfoldable pub check_change : Change → M (Unit {0})
  check_change c = do
    lift (validate_exclusive c.new.cron_expression c.new.rrule)
    check_rrule e c.new
    validate_shift_from_completion_series e c.new
    (if enabling_shift c then reject_shift_when_linked c.new.id else pure tt)

  unfoldable pub checked_change : Task → TaskUpdateRequest → M Change
  checked_change old request = do
    new ← lift (apply_request old request)
    let c : Change = record { old = old; new = new; request = request }
    check_change c
    pure c

  unfoldable pub republish_if_applicable : Task → M Task
  republish_if_applicable task = do
    applicable ← should_republish_after_unmute e task
    if applicable then republish e task else pure task

  -- the message for a change of the status, the texts or the dates
  unfoldable pub publish_own_change : Change → M Task
  publish_own_change c =
      if status_changed c && has_status c.new status_deleted
      then (do publish_removal e c.new; pure c.new)
      else if (status_changed c && has_status c.new status_scheduled)
          || title_changed c
          || description_changed c
          || start_date_changed c
          || recurrence_schedule_changed c
          || pre_remind_changed c
      then republish_if_applicable c.new
      else pure c.new

  unfoldable pub publish_own_mute : Change → Task → M Task
  publish_own_mute c task =
      if not (mute_transition c)
      then pure task
      else if task.muted
      then (do publish_removal e task; pure task)
      else republish_if_applicable task

  -- a task that is no recurrence parent is published itself
  unfoldable pub publish_own : Change → M Task
  publish_own c =
      if is_parent c then pure c.new else do task ← publish_own_change c; publish_own_mute c task

  unfoldable pub publish_parent_mute : Change → Task → M (Unit {0})
  publish_parent_mute c task =
      if mute_transition c && task.muted then publish_removal e task else pure tt

  -- the branch that the children take; `some` are the children to publish after the commit
  unfoldable pub sync_in_tx : Change → Task → List Task → M (Task × Option (List Task))
  sync_in_tx c task children =
      if requires_confirmation_removed c
      then (do
        delete_all_children e task children
        task' ← republish_if_applicable task
        publish_parent_mute c task'
        pure (task', none))
      else if recurrence_removed c
      then (do delete_open_children e task children; publish_parent_mute c task; pure (task, none))
      else if null children
      then (do publish_parent_mute c task; pure (task, none))
      else (do
        publishes ← sync_children e (record c { new = task }) children
        pure (task, some publishes))

  -- what stands between BeginTxx and Commit
  unfoldable pub update_in_tx : Change → M (Task × Option (List Task))
  update_in_tx c = do
    update_task_tx e c.new
    task ← publish_own c
    children ← get_child_tasks e c.old.id
    sync_in_tx c task children

  unfoldable pub publish_after_commit : Change → Task → Option (List Task) → M (Unit {0})
  publish_after_commit c task none = pure tt
  publish_after_commit c task (some publishes) = do
    publish_child_schedules e publishes
    publish_parent_mute c task

  unfoldable pub store_series : Change → M Task
  store_series c = do
    require_that e.has_db other
    (task, publishes) ← transaction e (update_in_tx c)
    publish_after_commit c task publishes
    pure task

  unfoldable pub store_single : Change → M Task
  store_single c = do store_task e c.new; publish_own c

  unfoldable pub store_change : Change → M Task
  store_change c = if was_parent c || is_parent c then store_series c else store_single c

  unfoldable pub publish_first_child : Time → Task → Outcome ℕ → M (Unit {0})
  publish_first_child now child panicked = lift panicked
  publish_first_child now child (err x) = pure tt
  publish_first_child now child (ok id) =
      if before child.start_date now
      then pure tt
      else publish_new_child e (record child { id = id })

  unfoldable pub create_first_at : Task → Time → Outcome Time → M (Unit {0})
  create_first_at task now panicked = lift panicked
  create_first_at task now (err x) = pure tt
  create_first_at task now (ok start) = do
    let child = new_child task task.id start status_scheduled
    id ← attempt (insert_task e child)
    publish_first_child now child id

  -- a series that now waits for confirmations gets its first child
  unfoldable pub start_series : Change → Task → M (Unit {0})
  start_series c task =
      if requires_confirmation_added (record c { new = task })
      then (do
        publish_removal e task
        now ← time_now e
        create_first_at task now (next_recurrence_after e.lib task now))
      else pure tt

  unfoldable pub record_change : Change → Task → M (Unit {0})
  record_change c task = do
    (if status_changed c then record_history e (status_history task c.old.status) else pure tt)
    (if has_other_changes c.request || (is_some c.request.status && not (status_changed c))
        then record_history e
            (history_of task (codes "updated") (task_to_map c.old) (task_to_map task))
        else pure tt)

  unfoldable pub after_update : Change → Task → M Task
  after_update c task = do
    start_series c task
    record_change c task
    touch_user_activity e task.user_id
    notify_calendar_export e task.id (codes "updated")
    pure task

  unfoldable pub update_found : TaskUpdateRequest → Task → M Task
  update_found request old = do
    c ← checked_change old request
    task ← store_change c
    after_update c task

  unfoldable pub update_task : ℕ → TaskUpdateRequest → M Task
  update_task id request = do old ← get_task e id; update_found request old
