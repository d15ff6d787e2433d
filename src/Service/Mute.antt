-- ===== src/Service/Mute.antt =====
-- internal/service/task_service.go: QueueTask, MuteTask and UnmuteTask.
pub mod Silence
use goreminder.Prelude.{ℕ, Bool, true, false, not, Option, none, some, List, [], ◌∷◌, if◌then◌else◌}
use goreminder.Text.{Text, codes}
use goreminder.Errors.{Err, Outcome, ok, err, panicked, not_found, validation}
use goreminder.Models.{Task, status_deleted}
use goreminder.Queue.{TaskEvent}
use goreminder.Recurrence.Rules.{is_recurrence_parent_with_confirmation}
use goreminder.Service.World.{Env, World, M, pure, raise, lift, attempt, best_effort, ◌>>=◌, ◌>>◌}
use goreminder.Service.Repository.{
  has_status, get_task, get_task_any_status, get_child_tasks, update_task,
}
use goreminder.Service.Publish.{
  task_to_map, publish_task_event, build_schedule_task_event, build_delete_task_event,
  publish_schedule_after_unmute, touch_user_activity,
}
use goreminder.Service.Effects.{is_closed, history_of, record_history}

-- models.ScheduledTask; `other_action` is an action that is neither of the two constants
pub data ScheduledTaskAction : Type 0 where
  action_schedule action_delete other_action : ScheduledTaskAction

module _ (e : Env) where
  unfoldable pub event_for : ScheduledTaskAction → Task → M TaskEvent
  event_for action_schedule task = build_schedule_task_event e task
  event_for action_delete task = build_delete_task_event e task
  event_for other_action task = raise validation

  unfoldable pub queue_task : ℕ → ScheduledTaskAction → M (Unit {0})
  queue_task id action = do
    task ← get_task e id
    event ← event_for action task
    publish_task_event e task event
    touch_user_activity e task.user_id

  abbrev pub with_muted : Bool → Task → Task
  with_muted b task = record task { muted = b }

  -- publishes the deletion of a task; its errors are logged
  unfoldable pub publish_removal : Task → M (Unit {0})
  publish_removal task =
      best_effort (do event ← build_delete_task_event e task; publish_task_event e task event)

  unfoldable pub mute_child : Task → M (Unit {0})
  mute_child child =
      if is_closed child
      then pure tt
      else best_effort
          (do update_task e (with_muted true child); publish_removal (with_muted true child))

  unfoldable pub mute_children : List Task → M (Unit {0})
  mute_children [] = pure tt
  mute_children (child ∷ children) = do mute_child child; mute_children children

  -- the republication of a task; its errors are logged
  unfoldable pub logged_republication : Task × Outcome (Unit {0}) → M Task
  logged_republication (task, panicked) = lift panicked
  logged_republication (task, ok _) = pure task
  logged_republication (task, err x) = pure task

  unfoldable pub republish : Task → M Task
  republish task = do sent ← publish_schedule_after_unmute e task; logged_republication sent

  unfoldable pub unmute_child : Task → M (Unit {0})
  unmute_child child =
      if is_closed child
      then pure tt
      else best_effort
          (do update_task e (with_muted false child); republish (with_muted false child))

  unfoldable pub unmute_children : List Task → M (Unit {0})
  unmute_children [] = pure tt
  unmute_children (child ∷ children) = do unmute_child child; unmute_children children

  unfoldable pub for_loaded : (List Task → M (Unit {0})) → Outcome (List Task) → M (Unit {0})
  for_loaded each (ok children) = each children
  for_loaded each (err x) = pure tt
  for_loaded each panicked = lift panicked

  -- the open children of a confirmation parent; an error of the lookup is logged
  unfoldable pub for_children : Task → (List Task → M (Unit {0})) → M (Unit {0})
  for_children task each =
      if is_recurrence_parent_with_confirmation task
      then (do loaded ← attempt (get_child_tasks e task.id); for_loaded each loaded)
      else pure tt

  unfoldable pub mute_open : Task → M Task
  mute_open task = do
    update_task e (with_muted true task)
    for_children (with_muted true task) mute_children
    publish_removal (with_muted true task)
    record_history e
        (history_of task (codes "updated") (task_to_map task) (task_to_map (with_muted true task)))
    touch_user_activity e task.user_id
    pure (with_muted true task)

  unfoldable pub mute_task : ℕ → M Task
  mute_task id = do
    task ← get_task_any_status e id
    (if has_status task status_deleted
        then raise not_found
        else if task.muted
        then pure task
        else mute_open task)

  unfoldable pub unmute_closed : Task → M Task
  unmute_closed task = do
    update_task e (with_muted false task)
    for_children (with_muted false task) unmute_children
    unmuted ← republish (with_muted false task)
    record_history e (history_of task (codes "updated") (task_to_map task) (task_to_map unmuted))
    touch_user_activity e task.user_id
    pure unmuted

  unfoldable pub unmute_task : ℕ → M Task
  unmute_task id = do
    task ← get_task_any_status e id
    (if has_status task status_deleted
        then raise not_found
        else if task.muted
        then unmute_closed task
        else pure task)
