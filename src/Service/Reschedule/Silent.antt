-- ===== src/Service/Reschedule/Silent.antt =====
-- What RescheduleTask queues for a muted task (internal/service/task_service.go).
use goreminder.Prelude.{ℕ, ◌≡◌, refl, true, Option, none, some, List, arith}
use goreminder.Clock.{Time}
use goreminder.Models.{Task}
use goreminder.Queue.{TaskEvent, TaskMessage}
use goreminder.Service.World.{Env, World, TaskHistory, pure}
use goreminder.Service.World.Keeps.{
  Keeps, Keeps-pure, Keeps-lift, Keeps-map_err, Keeps-bind, Keeps-then, Keeps-best_effort,
  Keeps-modify, Keeps-outside, Keeps-time_now,
}
use goreminder.Service.Repository.{update_task, create_task_history}
use goreminder.Service.Publish.{publish_task_event, is_schedule}
use goreminder.Service.Effects.{record_history}
use goreminder.Service.Frame.{
  get_task_any_status-Keeps, require_related-Keeps, get_messenger_related_user-Keeps,
  messenger_name-Keeps,
}
use goreminder.Service.Reschedule.{
  load_parent_of, publish_rescheduled, rescheduled, reschedule_task,
}

-- The messages sent so far are `sent`.
abbrev SameQueue : List TaskMessage → World → Type 0
SameQueue sent w = w.queue ≡ sent

module _ (e : Env) (sent : List TaskMessage) where
  load_parent_of-SameQueue : (o : Option ℕ) → Keeps (SameQueue sent) (load_parent_of e o)
  unfolding load_parent_of
  load_parent_of-SameQueue none = Keeps-pure none
  load_parent_of-SameQueue (some id) =
      Keeps-bind _ _ (get_task_any_status-Keeps e (λ w h. h) id) (λ p. Keeps-pure (some p))

  muted_event-SameQueue :
      (t : Task) (event : TaskEvent)
      → t.muted ≡ true
      → is_schedule event.type ≡ true
      → Keeps (SameQueue sent) (publish_task_event e t event)
  unfolding publish_task_event pure
  muted_event-SameQueue t event m s = record { at = λ w h. ground arith }

  publish_rescheduled-SameQueue :
      (t : Task) (start : Time)
      → t.muted ≡ true
      → Keeps (SameQueue sent) (publish_rescheduled e t start)
  unfolding publish_rescheduled
  publish_rescheduled-SameQueue t start m =
      Keeps-bind _ _ (require_related-Keeps e (λ w h. h) _) λ id.
        Keeps-bind _ _ (Keeps-map_err _ _ (get_messenger_related_user-Keeps e (λ w h. h) id))
          λ related.
            Keeps-bind _ _ (messenger_name-Keeps e (λ w h. h) related)
              λ name. muted_event-SameQueue t _ m refl

  update_task-SameQueue : (t : Task) → Keeps (SameQueue sent) (update_task e t)
  unfolding update_task
  update_task-SameQueue t = Keeps-then _ _ (Keeps-outside e (λ w h. h)) (Keeps-modify _ (λ w h. h))

  record_history-SameQueue : (h : TaskHistory) → Keeps (SameQueue sent) (record_history e h)
  unfolding record_history create_task_history
  record_history-SameQueue h =
      Keeps-best_effort _ (Keeps-then _ _ (Keeps-outside e (λ w h. h)) (Keeps-modify _ (λ w h. h)))

  reschedule_task-SameQueue :
      (t : Task) → t.muted ≡ true → Keeps (SameQueue sent) (reschedule_task e t)
  unfolding reschedule_task
  reschedule_task-SameQueue t m = Keeps-bind _ _ (Keeps-time_now e (λ w h. h)) λ now.
      Keeps-bind _ _ (load_parent_of-SameQueue t.parent_id) λ parent.
        Keeps-bind _ _ (Keeps-lift _) λ start.
          Keeps-then _ _ (publish_rescheduled-SameQueue t start m) (
            Keeps-then _ _ (update_task-SameQueue (rescheduled e t start))
              (record_history-SameQueue _))

-- RescheduleTask queues nothing for a muted task, however it ends.
pub reschedule_task_muted :
    (e : Env) (t : Task) (w : World) → t.muted ≡ true → (reschedule_task e t w).1.queue ≡ w.queue
reschedule_task_muted e t w m = (reschedule_task-SameQueue e w.queue t m).at w refl
