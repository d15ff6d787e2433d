-- ===== src/Service/Delete.antt =====
-- internal/service/task_service.go: DeleteTask.
pub mod Rollback
pub mod Gone
use goreminder.Prelude.{
  Bool, true, false, ℕ, Option, none, some, List, [], ◌∷◌, map, null, if◌then◌else◌,
}
use goreminder.Text.{Text, codes}
use goreminder.Errors.{Outcome, other}
use goreminder.Models.{Task}
use goreminder.Recurrence.Rules.{has_recurrence_rule}
use goreminder.Service.World.{Env, World, M, pure, raise, ◌>>=◌, ◌>>◌}
use goreminder.Service.Repository.{
  get_task_any_status, get_child_tasks, delete_task as delete_row_of, delete_task_tx,
  delete_child_tasks_tx,
}
use goreminder.Service.Repository.Transaction.{transaction}
use goreminder.Service.Publish.{
  task_to_map, get_messenger_name, publish_task_event, require_related, delete_event,
  touch_user_activity, notify_calendar_export,
}
use goreminder.Service.Effects.{history_of, record_history, purge_attachments}

module _ (e : Env) where
  -- one delete_task message for each child
  unfoldable pub publish_deletes : Text → List Task → M (Unit {0})
  publish_deletes name [] = pure tt
  publish_deletes name (child ∷ children) = do
    publish_task_event e child (delete_event child.id name)
    publish_deletes name children

  unfoldable pub delete_loaded_children : Task → List Task → M (List ℕ)
  delete_loaded_children task children = if null children then pure [] else do
    related ← require_related e task.messenger_related_user_id
    name ← get_messenger_name e related
    delete_child_tasks_tx e task.id
    publish_deletes name children
    pure (map (λ c. c.id) children)

  -- the children of a task with a recurrence rule are deleted first
  unfoldable pub delete_children_in_tx : Task → M (List ℕ)
  delete_children_in_tx task =
      if has_recurrence_rule task
      then (do children ← get_child_tasks e task.id; delete_loaded_children task children)
      else pure []

  -- what stands between BeginTxx and Commit; it returns the ids of the deleted children
  unfoldable pub delete_in_tx : Task → M (List ℕ)
  delete_in_tx task = do
    ids ← delete_children_in_tx task
    delete_task_tx e task.id
    related ← require_related e task.messenger_related_user_id
    name ← get_messenger_name e related
    publish_task_event e task (delete_event task.id name)
    pure ids

  -- history, activity, attachments and the calendar, once the rows are deleted
  unfoldable pub after_delete : Task → List ℕ → M (Unit {0})
  after_delete task ids = do
    record_history e (history_of task (codes "deleted") (task_to_map task) [])
    touch_user_activity e task.user_id
    purge_attachments e task.id ids
    notify_calendar_export e task.id (codes "deleted")

  -- the path of a repository that has no database handle to give
  unfoldable pub delete_without_tx : Task → M (Unit {0})
  delete_without_tx task =
      if has_recurrence_rule task
      then raise other
      else do delete_row_of e task.id; after_delete task []

  unfoldable pub delete_with_tx : Task → M (Unit {0})
  delete_with_tx task = do ids ← transaction e (delete_in_tx task); after_delete task ids

  unfoldable pub delete_task : ℕ → M (Unit {0})
  delete_task id = do
    task ← get_task_any_status e id
    if e.has_db then delete_with_tx task else delete_without_tx task
