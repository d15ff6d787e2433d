-- ===== src/Service/Complete.antt =====
-- internal/service/task_service.go: MarkTaskAsDone.
pub mod Rollback
use goreminder.Prelude.{
  ℕ, Bool, true, false, not, ◌&&◌, ◌||◌, Option, none, some, List, [], ◌∷◌, ◌++◌, any, null, ◌==◌,
  if◌then◌else◌,
}
use goreminder.Text.{Text, codes}
use goreminder.Errors.{Err, Outcome, ok, err, panicked, not_found, conflict, not_shiftable, other}
use goreminder.Clock.{Time, is_zero}
use goreminder.Models.{Task, status_done, status_scheduled}
use goreminder.Recurrence.Rules.{is_recurrence_parent_with_confirmation, has_recurrence_rule}
use goreminder.Recurrence.Next.{next_recurrence_after}
use goreminder.Recurrence.Shift.{CompletionShift, shift_recurrence_from_completion}
use goreminder.Service.World.{
  Env, World, Value, text, time, TaskHistory, M, pure, raise, lift, attempt, map_err, rename,
  best_effort, outside, time_now, ◌>>=◌, ◌>>◌,
}
use goreminder.Service.Repository.{
  has_status, insert_task, get_task_any_status, get_child_tasks, update_task_tx,
}
use goreminder.Service.Repository.Transaction.{transaction}
use goreminder.Service.Publish.{
  get_messenger_name, publish_task_event, require_related, delete_event, touch_user_activity,
}
use goreminder.Service.Effects.{
  is_closed, new_child, history_of, status_history, record_history, publish_new_child,
  purge_attachments_after_done,
}
use goreminder.Service.Series.{
  PreparedShift, require_that, shifted_parent, wants_shift, prepared, record_shift,
}

module _ (e : Env) where
  unfoldable pub update_shifted_parent : Option PreparedShift → M (Unit {0})
  update_shifted_parent none = pure tt
  update_shifted_parent (some s) = update_task_tx e (shifted_parent s)

  -- what stands between BeginTxx and Commit
  unfoldable pub complete_in_tx : Task → Option PreparedShift → M (Unit {0})
  complete_in_tx done shift = do
    update_task_tx e done
    update_shifted_parent shift
    related ← require_related e done.messenger_related_user_id
    name ← get_messenger_name e related
    publish_task_event e done (delete_event done.id name)

  unfoldable pub next_of : Task → Outcome Time → M (Option (Task × Time))
  next_of parent (ok t) = pure (some (parent, t))
  next_of parent (err x) = pure none
  next_of parent panicked = lift panicked

  unfoldable pub next_of_loaded : Outcome Task → M (Option (Task × Time))
  next_of_loaded (ok parent) =
      if not (has_status parent status_done) && is_recurrence_parent_with_confirmation parent
      then (do now ← time_now e; next_of parent (next_recurrence_after e.lib parent now))
      else pure none
  next_of_loaded (err x) = pure none
  next_of_loaded panicked = lift panicked

  -- the parent of the next child and its start
  unfoldable pub next_occurrence : ℕ → Option PreparedShift → M (Option (Task × Time))
  next_occurrence pid (some s) = pure (some (shifted_parent s, s.shifted.next_start))
  next_occurrence pid none = do loaded ← attempt (get_task_any_status e pid); next_of_loaded loaded

  unfoldable pub publish_inserted : Task → Outcome ℕ → M (Unit {0})
  publish_inserted child (ok id) = publish_new_child e (record child { id = id })
  publish_inserted child (err x) = pure tt
  publish_inserted child panicked = lift panicked

  unfoldable pub create_next : ℕ → Option (Task × Time) → M (Unit {0})
  create_next pid none = pure tt
  create_next pid (some (parent, start)) =
      if not (has_status parent status_done)
        && is_recurrence_parent_with_confirmation parent
        && not (is_zero start)
      then (do
        let child = new_child parent pid start status_scheduled
        id ← attempt (insert_task e child)
        publish_inserted child id)
      else pure tt

  unfoldable pub create_next_of : Option ℕ → Option PreparedShift → M (Unit {0})
  create_next_of none shift = pure tt
  create_next_of (some pid) shift = do next ← next_occurrence pid shift; create_next pid next

  -- a completed child of a series that goes on is followed by the next child
  unfoldable pub create_next_child : Task → Option PreparedShift → M (Unit {0})
  create_next_child done shift = create_next_of done.parent_id shift

  abbrev first_date : Option Time → Option Time → Time → Option Time
  first_date (some t) child now = some t
  first_date none (some t) now = some t
  first_date none none now = some now

  -- the row of a child that is closed with its parent
  abbrev pub closed_child : Task → Task → Time → Task
  closed_child parent child now = record child {
    title = parent.title;
    description = parent.description;
    finish_date = first_date parent.finish_date child.finish_date now;
    status = status_done;
  }

  unfoldable pub close_children_in_tx : Task → Text → Time → List Task → M (Unit {0})
  close_children_in_tx parent name now [] = pure tt
  close_children_in_tx parent name now (child ∷ children) =
      if is_closed child then close_children_in_tx parent name now children else (do
        update_task_tx e (closed_child parent child now)
        publish_task_event e (closed_child parent child now) (delete_event child.id name)
        close_children_in_tx parent name now children)

  unfoldable pub close_loaded : Task → Text → Outcome (List Task) → M (Unit {0})
  close_loaded done name (ok children) =
      if not (null children) && e.has_db
      then best_effort
          (transaction e (do now ← time_now e; close_children_in_tx done name now children))
      else pure tt
  close_loaded done name (err x) = pure tt
  close_loaded done name panicked = lift panicked

  -- a completed recurrence parent closes its open children, in a transaction of its own
  unfoldable pub close_children : Task → M (Unit {0})
  close_children done =
      if has_recurrence_rule done
      then (do
        related ← require_related e done.messenger_related_user_id
        name ← get_messenger_name e related
        children ← attempt (get_child_tasks e done.id)
        close_loaded done name children)
      else pure tt

  -- everything after the commit
  unfoldable pub after_completion : Text → Task → Option PreparedShift → M Task
  after_completion old_status done shift = do
    record_shift e shift
    create_next_child done shift
    close_children done
    record_history e (status_history done old_status)
    (if e.purge_on_task_done then purge_attachments_after_done e done.id else pure tt)
    touch_user_activity e done.user_id
    pure done

  abbrev pub completed : Task → Time → Task
  completed task now = record task { status = status_done; finish_date = some now }

  -- everything up to the commit, for a task that is not done
  unfoldable pub complete_open_task : Task → Option Bool → M (Task × Option PreparedShift)
  complete_open_task task flag = do
    now ← time_now e
    apply ← wants_shift e flag task
    shift ← prepared e apply task now
    require_that e.has_db other
    transaction e (complete_in_tx (completed task now) shift)
    pure (completed task now, shift)

  unfoldable pub mark_task_as_done : ℕ → Option Bool → M Task
  mark_task_as_done id flag = do
    task ← get_task_any_status e id
    if has_status task status_done then pure task else do
      (done, shift) ← complete_open_task task flag
      after_completion task.status done shift
