-- ===== src/Service/Effects.antt =====
-- internal/service/task_service.go: the parts that several methods of the task service share.
use goreminder.Prelude.{
  ℕ, zero, suc, Bool, false, ◌||◌, Option, none, some, List, [], ◌∷◌, ◌++◌, map, if◌then◌else◌,
}
use goreminder.Text.{Text, codes}
use goreminder.Errors.{Outcome, ok, err, panicked, not_found_as_unprocessable}
use goreminder.Clock.{Time}
use goreminder.Models.{Task, status_done, status_deleted}
use goreminder.PreRemind.{clone_pre_remind}
use goreminder.Service.World.{
  Env, Value, text, TaskHistory, M, pure, attempt, map_err, modify, best_effort, outside, ◌>>=◌,
  ◌>>◌,
}
use goreminder.Service.Repository.{has_status, create_task_history, get_child_tasks}
use goreminder.Service.Publish.{
  get_messenger_related_user, messenger_name_from_related_user, publish_task_event, schedule_event,
}

abbrev pub is_closed : Task → Bool
is_closed t = has_status t status_done || has_status t status_deleted

-- The child row of a recurrence parent: it carries no rule of its own.
abbrev pub new_child : Task → ℕ → Time → Text → Task
new_child parent pid start status = record {
  id = 0;
  title = parent.title;
  description = parent.description;
  user_id = parent.user_id;
  messenger_related_user_id = parent.messenger_related_user_id;
  parent_id = some pid;
  group_id = parent.group_id;
  start_date = start;
  finish_date = parent.finish_date;
  cron_expression = none;
  rrule = none;
  requires_confirmation = parent.requires_confirmation;
  muted = parent.muted;
  shift_from_completion = false;
  skip_digest = parent.skip_digest;
  pre_remind_before_seconds = clone_pre_remind parent.pre_remind_before_seconds;
  status = status;
  deleted_at = none;
  history_source = [];
}

abbrev pub history_of : Task → Text → List (Text × Value) → List (Text × Value) → TaskHistory
history_of task action before after = record {
  task_id = task.id;
  user_id = task.user_id;
  action = action;
  old_value = before;
  new_value = after;
}

abbrev pub status_history : Task → Text → TaskHistory
status_history task before =
    history_of task (codes "status_changed") ((codes "status", text before) ∷ [])
      ((codes "status", text task.status) ∷ [])

module _ (e : Env) where
  -- history is written on a best-effort basis
  unfoldable pub record_history : TaskHistory → M (Unit {0})
  record_history h = best_effort (create_task_history e h)

  unfoldable pub publish_child_to : Option ℕ → Task → M (Unit {0})
  publish_child_to none child = pure tt
  publish_child_to (some id) child = best_effort (do
    related ← map_err not_found_as_unprocessable (get_messenger_related_user e id)
    name ← messenger_name_from_related_user e related
    publish_task_event e child (
        schedule_event child child.start_date child.cron_expression child.rrule name
          related.chat_id))

  -- publishes a child that was just inserted, if it has a messenger; errors are logged
  unfoldable pub publish_new_child : Task → M (Unit {0})
  publish_new_child child = publish_child_to child.messenger_related_user_id child

  unfoldable pub purge_call : ℕ → List ℕ → M (Unit {0})
  purge_call id children = do
    outside e
    modify (λ w. record w { purges = w.purges ++ (id, children) ∷ [] })

  -- after a call, goes on to `rest` only where it failed
  unfoldable pub retry : Outcome (Unit {0}) → M (Unit {0}) → M (Unit {0})
  retry (ok _) rest = pure tt
  retry (err x) rest = rest
  retry panicked rest = pure tt

  -- the loop of purgeAttachmentsBestEffort, with its attempts left
  unfoldable pub purge_attempts : ℕ → ℕ → List ℕ → M (Unit {0})
  purge_attempts zero id children = pure tt
  purge_attempts (suc n) id children = do
    done ← attempt (purge_call id children)
    retry done (purge_attempts n id children)

  unfoldable pub purge_attachments : ℕ → List ℕ → M (Unit {0})
  purge_attachments id children =
      if e.has_attachments then purge_attempts 3 id children else pure tt

  abbrev ids_or_none : Outcome (List Task) → List ℕ
  ids_or_none (ok rows) = map (λ row. row.id) rows
  ids_or_none (err x) = []
  ids_or_none panicked = []

  -- purgeAttachmentsAfterTaskDone
  unfoldable pub purge_attachments_after_done : ℕ → M (Unit {0})
  purge_attachments_after_done id = do
    children ← attempt (get_child_tasks e id)
    purge_attachments id (ids_or_none children)
