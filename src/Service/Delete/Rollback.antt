-- ===== src/Service/Delete/Rollback.antt =====
-- The failures of DeleteTask (internal/service/task_service.go).
use goreminder.Prelude.{ℕ, ◌≡◌, refl, false, List, [], ◌∷◌, null, arith}
use goreminder.Text.{Text}
use goreminder.Errors.{is_ok}
use goreminder.Models.{Task}
use goreminder.Recurrence.Rules.{has_recurrence_rule}
use goreminder.Service.World.{Env, World, outside, modify, time_now, ◌>>=◌}
use goreminder.Service.World.Keeps.{
  Keeps, Keeps-pure, Keeps-if, Keeps-then, Keeps-bind, Keeps-raise,
}
use goreminder.Service.Repository.Transaction.{SameTasks}
use goreminder.Service.Repository.Transaction.Atomic.{
  FailsSafe, FailsSafe-Keeps, FailsSafe-bind, FailsSafe-if, FailsSafe-then-Total,
  transaction-FailsSafe,
}
use goreminder.Service.Frame.{
  get_task_any_status-Keeps, get_child_tasks-Keeps, SameTasks-Blind, delete_task_tx-SameTasks,
  delete_child_tasks_tx-SameTasks, require_related-Keeps, get_messenger_name-Keeps,
  publish_task_event-Keeps,
}
use goreminder.Service.Total.{
  record_history-Total, touch_user_activity-Total, purge_attachments-Total,
  notify_calendar_export-Total,
}
use goreminder.Service.World.Ensures.{Total, Total-bind}
use goreminder.Service.Repository.{delete_task as delete_row_of}
use goreminder.Service.Delete.{
  publish_deletes, delete_loaded_children, delete_children_in_tx, delete_in_tx, after_delete,
  delete_with_tx, delete_without_tx, delete_task,
}

module _ (e : Env) (rows : List Task) where
  publish_deletes-Keeps :
      (name : Text) (cs : List Task) → Keeps (SameTasks rows) (publish_deletes e name cs)
  unfolding publish_deletes
  publish_deletes-Keeps name [] = Keeps-pure tt
  publish_deletes-Keeps name (c ∷ cs) =
      Keeps-then _ _ (publish_task_event-Keeps e (SameTasks-Blind rows) c _)
        (publish_deletes-Keeps name cs)

  delete_loaded-Keeps :
      (t : Task) (cs : List Task) → Keeps (SameTasks rows) (delete_loaded_children e t cs)
  unfolding delete_loaded_children
  delete_loaded-Keeps t cs =
      Keeps-if (null cs) _ _ (λ _. Keeps-pure [])
        (λ _. Keeps-bind _ _ (require_related-Keeps e (SameTasks-Blind rows).ticks _) λ id.
          Keeps-bind _ _ (get_messenger_name-Keeps e (SameTasks-Blind rows).ticks id) λ name.
            Keeps-then _ _ (delete_child_tasks_tx-SameTasks e rows t.id)
              (Keeps-then _ _ (publish_deletes-Keeps name cs) (Keeps-pure _)))

  delete_children-Keeps : (t : Task) → Keeps (SameTasks rows) (delete_children_in_tx e t)
  unfolding delete_children_in_tx
  delete_children-Keeps t =
      Keeps-if (has_recurrence_rule t) _ _
        (λ _. Keeps-bind _ _ (get_child_tasks-Keeps e (λ w h. h) t.id) (delete_loaded-Keeps t))
        (λ _. Keeps-pure [])

  delete_in_tx-Keeps : (t : Task) → Keeps (SameTasks rows) (delete_in_tx e t)
  unfolding delete_in_tx
  delete_in_tx-Keeps t = Keeps-bind _ _ (delete_children-Keeps t) λ ids.
      Keeps-then _ _ (delete_task_tx-SameTasks e rows t.id) (
        Keeps-bind _ _ (require_related-Keeps e (SameTasks-Blind rows).ticks _) λ id.
          Keeps-bind _ _ (get_messenger_name-Keeps e (SameTasks-Blind rows).ticks id) λ name.
            Keeps-then _ _ (publish_task_event-Keeps e (SameTasks-Blind rows) t _) (Keeps-pure ids))

module _ (e : Env) where
  after_delete-Total : (t : Task) (ids : List ℕ) → Total (after_delete e t ids)
  unfolding after_delete
  after_delete-Total t ids = Total-bind _ _ (record_history-Total e _) λ _.
      Total-bind _ _ (touch_user_activity-Total e t.user_id) λ _.
        Total-bind _ _ (purge_attachments-Total e t.id ids)
          λ _. notify_calendar_export-Total e t.id _

  delete_with_tx-FailsSafe :
      (rows : List Task) (t : Task) → FailsSafe (SameTasks rows) (delete_with_tx e t)
  unfolding delete_with_tx
  delete_with_tx-FailsSafe rows t =
      FailsSafe-then-Total _ _ (transaction-FailsSafe e rows _ (delete_in_tx-Keeps e rows t))
        (after_delete-Total t)

  plain_delete-FailsSafe :
      (rows : List Task) (id : ℕ) → FailsSafe (SameTasks rows) (delete_row_of e id)
  unfolding delete_row_of outside modify time_now ◌>>=◌
  plain_delete-FailsSafe rows id = record { at = λ w h failed. ground arith }

  delete_without_tx-FailsSafe :
      (rows : List Task) (t : Task) → FailsSafe (SameTasks rows) (delete_without_tx e t)
  unfolding delete_without_tx
  delete_without_tx-FailsSafe rows t =
      FailsSafe-if (has_recurrence_rule t) _ _ (λ _. FailsSafe-Keeps _ (Keeps-raise _))
        (λ _.
          FailsSafe-then-Total _ _ (plain_delete-FailsSafe rows t.id)
            (λ _. after_delete-Total t []))

  delete_task-FailsSafe :
      (rows : List Task) (id : ℕ) → FailsSafe (SameTasks rows) (delete_task e id)
  unfolding delete_task
  delete_task-FailsSafe rows id =
      FailsSafe-bind _ _ (get_task_any_status-Keeps e (λ w h. h) id) λ t.
        FailsSafe-if e.has_db _ _ (λ _. delete_with_tx-FailsSafe rows t)
          (λ _. delete_without_tx-FailsSafe rows t)

-- Whenever DeleteTask fails, on either of its paths, no row of the table has changed: a failure
-- to queue a delete_task message rolls the deletions back.
pub delete_task-atomic :
    (e : Env) (id : ℕ) (w : World)
    → is_ok (delete_task e id w).0 ≡ false
    → (delete_task e id w).1.tasks ≡ w.tasks
delete_task-atomic e id w failed = (delete_task-FailsSafe e w.tasks id).at w refl failed
