-- ===== src/Service/Create/Checks.antt =====
-- The failures of CreateTask (internal/service/task_service.go).
use goreminder.Prelude.{ℕ, ◌≡◌, refl, false, Option, none, some, List, arith}
use goreminder.Errors.{is_ok, not_found}
use goreminder.Models.{Task}
use goreminder.Service.World.{Env, World, pure, attempt, outside, modify, gets, ◌>>=◌}
use goreminder.Service.World.Keeps.{
  Keeps, Keeps-pure, Keeps-raise, Keeps-lift, Keeps-map_err, Keeps-if, Keeps-then, Keeps-bind,
  Keeps-outside,
}
use goreminder.Service.World.Ensures.{Total, Total-pure, Total-bind}
use goreminder.Service.Repository.{insert_task}
use goreminder.Service.Repository.Transaction.{SameTasks}
use goreminder.Service.Repository.Transaction.Atomic.{
  FailsSafe, FailsSafe-bind, FailsSafe-then-Total,
}
use goreminder.Service.Frame.{
  SameTasks-Blind, get_messenger_related_user-Keeps, messenger_name-Keeps,
}
use goreminder.Service.Frame.Checks.{check_rrule-Keeps, validate_shift-Keeps}
use goreminder.Service.Total.{
  record_history-Total, touch_user_activity-Total, notify_calendar_export-Total,
}
use goreminder.Service.Create.{
  get_user, check_messenger, check_new_task, child_id_of, create_first_child, after_create,
  create_task,
}

module _ (e : Env) (rows : List Task) where
  get_user-Keeps : (id : ℕ) → Keeps (SameTasks rows) (get_user e id)
  unfolding get_user
  get_user-Keeps id =
      Keeps-then _ _ (Keeps-outside e (λ w h. h))
        (Keeps-if (e.user_exists id) _ _ (λ _. Keeps-pure tt) (λ _. Keeps-raise not_found))

  check_messenger-Keeps : (o : Option ℕ) → Keeps (SameTasks rows) (check_messenger e o)
  unfolding check_messenger
  check_messenger-Keeps none = Keeps-pure tt
  check_messenger-Keeps (some id) =
      Keeps-bind _ _
        (Keeps-map_err _ _ (get_messenger_related_user-Keeps e (SameTasks-Blind rows).ticks id))
        λ r. Keeps-then _ _ (messenger_name-Keeps e (SameTasks-Blind rows).ticks r) (Keeps-pure tt)

  pub check_new_task-Keeps : (t : Task) → Keeps (SameTasks rows) (check_new_task e t)
  unfolding check_new_task
  check_new_task-Keeps t = Keeps-then _ _ (Keeps-map_err _ _ (get_user-Keeps t.user_id)) (
      Keeps-bind _ _ (Keeps-lift _) λ status. Keeps-then _ _ (check_messenger-Keeps _) (
        Keeps-then _ _ (Keeps-lift _) (
          Keeps-then _ _ (check_rrule-Keeps e (λ w h. h) t) (
            Keeps-then _ _ (Keeps-lift _)
              (Keeps-then _ _ (validate_shift-Keeps e (λ w h. h) _) (Keeps-pure _))))))

  insert_task-FailsSafe : (t : Task) → FailsSafe (SameTasks rows) (insert_task e t)
  unfolding insert_task ◌>>=◌ outside gets modify pure
  insert_task-FailsSafe t = record { at = λ w h failed. ground arith }

module _ (e : Env) where
  create_first_child-Total : (t : Task) → Total (create_first_child e t)
  unfolding create_first_child child_id_of attempt insert_task ◌>>=◌ outside gets modify pure
  create_first_child-Total t = record { at = λ w. ground arith }

  after_create-Total : (t : Task) → Total (after_create e t)
  unfolding after_create
  after_create-Total t = Total-bind _ _ (record_history-Total e _) λ _.
      Total-bind _ _ (create_first_child-Total t) λ child.
        Total-bind _ _ (touch_user_activity-Total e t.user_id) λ _.
          Total-bind _ _ (notify_calendar_export-Total e t.id _) (λ _. Total-pure (t.id, child))

  create_task-FailsSafe :
      (rows : List Task) (t : Task) → FailsSafe (SameTasks rows) (create_task e t)
  unfolding create_task
  create_task-FailsSafe rows t = FailsSafe-bind _ _ (check_new_task-Keeps e rows t) λ row.
      FailsSafe-then-Total _ _ (insert_task-FailsSafe e rows row) (λ id. after_create-Total _)

-- If CreateTask does not succeed - a check, a lookup or the insert failed - no row was inserted
-- or changed.
pub create_task-atomic :
    (e : Env) (t : Task) (w : World)
    → is_ok (create_task e t w).0 ≡ false
    → (create_task e t w).1.tasks ≡ w.tasks
create_task-atomic e t w failed = (create_task-FailsSafe e w.tasks t).at w refl failed
