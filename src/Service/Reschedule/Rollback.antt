-- ===== src/Service/Reschedule/Rollback.antt =====
-- The failures of RescheduleTask (internal/service/task_service.go).
use goreminder.Prelude.{ℕ, ◌≡◌, refl, false, Option, none, some, List, arith}
use goreminder.Errors.{is_ok}
use goreminder.Clock.{Time}
use goreminder.Models.{Task}
use goreminder.Service.World.{Env, World, outside, modify, ◌>>=◌}
use goreminder.Service.World.Keeps.{
  Keeps, Keeps-pure, Keeps-lift, Keeps-map_err, Keeps-bind, Keeps-time_now,
}
use goreminder.Service.Repository.{update_task}
use goreminder.Service.Repository.Transaction.{SameTasks}
use goreminder.Service.Repository.Transaction.Atomic.{
  FailsSafe, FailsSafe-bind, FailsSafe-then-Total,
}
use goreminder.Service.Frame.{
  get_task_any_status-Keeps, SameTasks-Blind, require_related-Keeps,
  get_messenger_related_user-Keeps, messenger_name-Keeps, publish_task_event-Keeps,
}
use goreminder.Service.Total.{record_history-Total}
use goreminder.Service.Reschedule.{
  load_parent_of, publish_rescheduled, rescheduled, reschedule_task,
}

module _ (e : Env) (rows : List Task) where
  load_parent_of-Keeps : (o : Option ℕ) → Keeps (SameTasks rows) (load_parent_of e o)
  unfolding load_parent_of
  load_parent_of-Keeps none = Keeps-pure none
  load_parent_of-Keeps (some id) =
      Keeps-bind _ _ (get_task_any_status-Keeps e (λ w h. h) id) (λ p. Keeps-pure (some p))

  publish_rescheduled-Keeps :
      (t : Task) (start : Time) → Keeps (SameTasks rows) (publish_rescheduled e t start)
  unfolding publish_rescheduled
  publish_rescheduled-Keeps t start =
      Keeps-bind _ _ (require_related-Keeps e (SameTasks-Blind rows).ticks _) λ id.
        Keeps-bind _ _
          (Keeps-map_err _ _ (get_messenger_related_user-Keeps e (SameTasks-Blind rows).ticks id))
          λ related.
            Keeps-bind _ _ (messenger_name-Keeps e (SameTasks-Blind rows).ticks related)
              λ name. publish_task_event-Keeps e (SameTasks-Blind rows) t _

  update_task-FailsSafe : (t : Task) → FailsSafe (SameTasks rows) (update_task e t)
  unfolding update_task outside modify ◌>>=◌
  update_task-FailsSafe t = record { at = λ w h failed. ground arith }

  reschedule_task-FailsSafe : (t : Task) → FailsSafe (SameTasks rows) (reschedule_task e t)
  unfolding reschedule_task
  reschedule_task-FailsSafe t = FailsSafe-bind _ _ (Keeps-time_now e (λ w h. h)) λ now.
      FailsSafe-bind _ _ (load_parent_of-Keeps t.parent_id) λ parent.
        FailsSafe-bind _ _ (Keeps-lift _) λ start.
          FailsSafe-bind _ _ (publish_rescheduled-Keeps t start) λ _.
            FailsSafe-then-Total _ _ (update_task-FailsSafe (rescheduled e t start))
              (λ _. record_history-Total e _)

-- If RescheduleTask fails - the parser panics on the parent's expression, the messenger is
-- missing, the queue or the database fails - no row of the table has changed.
pub reschedule_task-atomic :
    (e : Env) (t : Task) (w : World)
    → is_ok (reschedule_task e t w).0 ≡ false
    → (reschedule_task e t w).1.tasks ≡ w.tasks
reschedule_task-atomic e t w failed = (reschedule_task-FailsSafe e w.tasks t).at w refl failed
