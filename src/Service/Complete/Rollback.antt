-- ===== src/Service/Complete/Rollback.antt =====
-- The failures of MarkTaskAsDone (internal/service/task_service.go).
use goreminder.Prelude.{ℕ, ◌≡◌, refl, Bool, true, false, Option, none, some, List}
use goreminder.Errors.{Outcome, ok, err, panicked, not_found, conflict, other, is_ok}
use goreminder.Clock.{Time}
use goreminder.Models.{Task}
use goreminder.Service.World.{Env, World}
use goreminder.Service.World.Keeps.{
  Keeps, Keeps-pure, Keeps-raise, Keeps-lift, Keeps-attempt, Keeps-map_err, Keeps-then, Keeps-bind,
  Keeps-time_now,
}
use goreminder.Service.Repository.Transaction.{SameTasks}
use goreminder.Service.Repository.Transaction.Atomic.{
  FailsSafe, FailsSafe-bind, FailsSafe-then_pure, transaction-FailsSafe,
}
use goreminder.Service.Frame.{
  get_task_any_status-Keeps, get_child_tasks-Keeps, SameTasks-Blind, update_task_tx-SameTasks,
  require_related-Keeps, get_messenger_name-Keeps, publish_task_event-Keeps,
}
use goreminder.Service.Series.{
  PreparedShift, or_conflict, prepare_completion_shift, stored_flag, flag_of_parent,
  parent_stores_completion_shift, wants_shift, prepared, is_open_series,
}
use goreminder.Service.Frame.Checks.{require_that-Keeps, require_unlinked-Keeps}
use goreminder.Service.Complete.{update_shifted_parent, complete_in_tx, complete_open_task}

or_conflict-Keeps : {P : World → Type 0} (o : Option ℕ) → Keeps P (or_conflict o)
unfolding or_conflict
or_conflict-Keeps none = Keeps-raise conflict
or_conflict-Keeps (some id) = Keeps-pure id

module _ (e : Env) (rows : List Task) where
  prepare-Keeps : (t : Task) (at : Time) → Keeps (SameTasks rows) (prepare_completion_shift e t at)
  unfolding prepare_completion_shift
  prepare-Keeps t at = Keeps-bind _ _ (or_conflict-Keeps t.parent_id) λ pid.
      Keeps-bind _ _ (Keeps-map_err _ _ (get_task_any_status-Keeps e (λ w h. h) pid)) λ parent.
        Keeps-then _ _ (require_that-Keeps (is_open_series parent) conflict) (
          Keeps-bind _ _ (Keeps-lift _) λ shifted.
            Keeps-then _ _ (require_unlinked-Keeps e (λ w h. h) parent.id) (
              Keeps-bind _ _ (get_child_tasks-Keeps e (λ w h. h) parent.id)
                λ children. Keeps-then _ _ (require_that-Keeps _ conflict) (Keeps-pure _)))

  stored_flag-Keeps : (r : Outcome Task) → Keeps (SameTasks rows) (stored_flag e r)
  unfolding stored_flag
  stored_flag-Keeps (ok a) = Keeps-pure _
  stored_flag-Keeps (err not_found) = Keeps-pure false
  stored_flag-Keeps (err x) = Keeps-raise _
  stored_flag-Keeps panicked = Keeps-lift panicked

  flag_of_parent-Keeps : (o : Option ℕ) → Keeps (SameTasks rows) (flag_of_parent e o)
  unfolding flag_of_parent
  flag_of_parent-Keeps none = Keeps-pure false
  flag_of_parent-Keeps (some pid) =
      Keeps-bind _ _ (Keeps-attempt _ (get_task_any_status-Keeps e (λ w h. h) pid))
        stored_flag-Keeps

  wants_shift-Keeps : (f : Option Bool) (t : Task) → Keeps (SameTasks rows) (wants_shift e f t)
  unfolding wants_shift parent_stores_completion_shift
  wants_shift-Keeps none t = flag_of_parent-Keeps t.parent_id
  wants_shift-Keeps (some b) t = Keeps-pure b

  prepared-Keeps : (b : Bool) (t : Task) (at : Time) → Keeps (SameTasks rows) (prepared e b t at)
  unfolding prepared
  prepared-Keeps false t at = Keeps-pure none
  prepared-Keeps true t at = Keeps-bind _ _ (prepare-Keeps t at) (λ s. Keeps-pure (some s))

  update_shifted-Keeps :
      (o : Option PreparedShift) → Keeps (SameTasks rows) (update_shifted_parent e o)
  unfolding update_shifted_parent
  update_shifted-Keeps none = Keeps-pure tt
  update_shifted-Keeps (some s) = update_task_tx-SameTasks e rows _

  -- the body of the transaction writes through the transaction only
  complete_in_tx-Keeps :
      (t : Task) (s : Option PreparedShift) → Keeps (SameTasks rows) (complete_in_tx e t s)
  unfolding complete_in_tx
  complete_in_tx-Keeps t s = Keeps-then _ _ (update_task_tx-SameTasks e rows t) (
      Keeps-then _ _ (update_shifted-Keeps s) (
        Keeps-bind _ _ (require_related-Keeps e (SameTasks-Blind rows).ticks _) λ id.
          Keeps-bind _ _ (get_messenger_name-Keeps e (SameTasks-Blind rows).ticks id)
            λ name. publish_task_event-Keeps e (SameTasks-Blind rows) t _))

  complete_open_task-FailsSafe :
      (t : Task) (flag : Option Bool) → FailsSafe (SameTasks rows) (complete_open_task e t flag)
  unfolding complete_open_task
  complete_open_task-FailsSafe t flag = FailsSafe-bind _ _ (Keeps-time_now e (λ w h. h)) λ now.
      FailsSafe-bind _ _ (wants_shift-Keeps flag t) λ apply.
        FailsSafe-bind _ _ (prepared-Keeps apply t now) λ shift.
          FailsSafe-bind _ _ (require_that-Keeps e.has_db other) λ _.
            FailsSafe-then_pure _ _ (transaction-FailsSafe e rows _ (complete_in_tx-Keeps _ shift))

-- If marking an open task as done fails before or at the commit - a lookup, a shift that cannot
-- be applied, a missing messenger, the queue or the database - no row of the table has changed.
pub complete_open_task-atomic :
    (e : Env) (t : Task) (flag : Option Bool) (w : World)
    → is_ok (complete_open_task e t flag w).0 ≡ false
    → (complete_open_task e t flag w).1.tasks ≡ w.tasks
complete_open_task-atomic e t flag w failed =
    (complete_open_task-FailsSafe e w.tasks t flag).at w refl failed
