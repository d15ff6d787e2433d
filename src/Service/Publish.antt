-- ===== src/Service/Publish.antt =====
-- internal/service/task_service.go: history values, messenger lookups and what is published for a
-- task. Logging and tracing are left out.
use goreminder.Prelude.{
  ℕ, Bool, true, false, not, ◌&&◌, Option, none, some, List, [], ◌∷◌, ◌++◌, is_some, null, ltb,
  ◌==◌, if◌then◌else◌,
}
use goreminder.Text.{Text, codes}
use goreminder.Errors.{
  Outcome, ok, err, panicked, not_found, unprocessable_entity, not_found_as_unprocessable,
}
use goreminder.Clock.{Time, is_zero, before}
use goreminder.Models.{Task, MessengerRelatedUser}
use goreminder.Queue.{
  TaskEventType, TaskEvent, TaskMessage, schedule_task, delete_task, other_type, to_task_message,
}
use goreminder.Recurrence.Rules.{is_recurrence_parent_with_confirmation, has_recurrence_rule}
use goreminder.Recurrence.Next.{next_executable_start_date}
use goreminder.Service.World.{
  Env, Value, number, text, flag, time, seconds, M, pure, raise, lift, attempt, map_err, modify,
  best_effort, outside, time_now, ◌>>=◌, ◌>>◌,
}
use goreminder.Service.Repository.{get_task_any_status, update_task, update_task_tx}

module _ {A : Type 0} where
  abbrev optional : Text → (A → Value) → Option A → List (Text × Value)
  optional key f none = []
  optional key f (some a) = (key, f a) ∷ []

-- the map that history rows hold; the order of its keys says nothing
unfoldable pub task_to_map : Task → List (Text × Value)
task_to_map t =
    (codes "id", number t.id)
    ∷ (codes "title", text t.title)
    ∷ (codes "description", text t.description)
    ∷ (codes "status", text t.status)
    ∷ (codes "requires_confirmation", flag t.requires_confirmation)
    ∷ (codes "muted", flag t.muted)
    ∷ (codes "shift_from_completion", flag t.shift_from_completion)
    ∷ (codes "skip_digest", flag t.skip_digest)
    ∷ ((if is_zero t.start_date then [] else (codes "start_date", time t.start_date) ∷ [])
        ++ (optional (codes "finish_date") time t.finish_date
            ++ (optional (codes "cron_expression") text t.cron_expression
                ++ (optional (codes "rrule") text t.rrule
                    ++ (optional (codes "messenger_related_user_id") number
                          t.messenger_related_user_id
                        ++ (optional (codes "parent_id") number t.parent_id
                            ++ (optional (codes "group_id") number t.group_id
                                ++ (optional (codes "pre_remind_before_seconds") seconds
                                      t.pre_remind_before_seconds
                                    ++ (if null t.history_source
                                        then []
                                        else (codes "source", text t.history_source) ∷ [])))))))))

unfoldable pub or_row_not_found : {A : Type 0} → Option A → M A
or_row_not_found none = raise not_found
or_row_not_found (some a) = pure a

abbrev pub is_schedule : TaskEventType → Bool
is_schedule schedule_task = true
is_schedule delete_task = false
is_schedule (other_type name) = false

abbrev pub delete_event : ℕ → Text → TaskEvent
delete_event id name = record {
  type = delete_task;
  task_id = id;
  user_id = 0;
  messenger_name = name;
  chat_id = [];
  title = [];
  description = [];
  start_date = none;
  cron_expression = none;
  requires_confirmation = false;
  pre_remind_before_seconds = none;
  rrule = none;
}

-- the schedule event of a task at a start date, with its recurrence
abbrev pub schedule_event : Task → Time → Option Text → Option Text → Text → Text → TaskEvent
schedule_event t start cron rule name chat = record {
  type = schedule_task;
  task_id = t.id;
  user_id = t.user_id;
  messenger_name = name;
  chat_id = chat;
  title = t.title;
  description = t.description;
  start_date = some start;
  cron_expression = cron;
  requires_confirmation = t.requires_confirmation;
  pre_remind_before_seconds = t.pre_remind_before_seconds;
  rrule = rule;
}

module _ (e : Env) where
  -- GetMessengerRelatedUserByID
  unfoldable pub get_messenger_related_user : ℕ → M MessengerRelatedUser
  get_messenger_related_user id = do outside e; or_row_not_found (e.related_user id)

  -- GetMessengerByID, its name
  unfoldable pub get_messenger_by_id : ℕ → M Text
  get_messenger_by_id id = do outside e; or_row_not_found (e.messenger_name id)

  unfoldable pub messenger_name_of : Option ℕ → M Text
  messenger_name_of none = raise unprocessable_entity
  messenger_name_of (some id) = map_err not_found_as_unprocessable (get_messenger_by_id id)

  -- getMessengerNameFromRelatedUser
  unfoldable pub messenger_name_from_related_user : MessengerRelatedUser → M Text
  messenger_name_from_related_user related = messenger_name_of related.messenger_id

  -- getMessengerName
  unfoldable pub get_messenger_name : ℕ → M Text
  get_messenger_name id = do
    related ← map_err not_found_as_unprocessable (get_messenger_related_user id)
    messenger_name_from_related_user related

  -- Publisher.Publish
  unfoldable pub publish : TaskMessage → M (Unit {0})
  publish message = do outside e; modify (λ w. record w { queue = w.queue ++ message ∷ [] })

  unfoldable pub publish_task_event : Task → TaskEvent → M (Unit {0})
  publish_task_event task event =
      if task.muted && is_schedule event.type then pure tt else publish (to_task_message event)

  -- `if task.MessengerRelatedUserID == nil { return ErrUnprocessableEntity }`
  unfoldable pub require_related : Option ℕ → M ℕ
  require_related none = raise unprocessable_entity
  require_related (some id) = pure id

  unfoldable pub build_schedule_task_event : Task → M TaskEvent
  build_schedule_task_event task = do
    id ← require_related task.messenger_related_user_id
    related ← map_err not_found_as_unprocessable (get_messenger_related_user id)
    name ← messenger_name_from_related_user related
    pure (schedule_event task task.start_date task.cron_expression task.rrule name related.chat_id)

  unfoldable pub build_delete_task_event : Task → M TaskEvent
  build_delete_task_event task = do
    id ← require_related task.messenger_related_user_id
    name ← get_messenger_name id
    pure (delete_event task.id name)

  unfoldable pub should_republish_after_unmute : Task → M Bool
  should_republish_after_unmute task =
      if is_recurrence_parent_with_confirmation task then pure false else do
        now ← time_now e
        pure (
            if has_recurrence_rule task
            then true
            else if is_some task.parent_id
            then true
            else not (before task.start_date now))

  unfoldable pub load_parent : Option ℕ → Bool → M (Option Task)
  load_parent none past = pure none
  load_parent (some id) false = pure none
  load_parent (some id) true = do parent ← get_task_any_status e id; pure (some parent)

  -- the start date to publish, `none` where nothing is to be published
  unfoldable pub effective_start : Task → Bool → M (Option Time)
  effective_start task advance = do
    applicable ← should_republish_after_unmute task
    if not applicable then pure none else do
      now ← time_now e
      if before task.start_date now && not advance then pure none else do
        parent ← load_parent task.parent_id (before task.start_date now)
        start ← lift (next_executable_start_date e.lib task parent now)
        pure (if is_zero start then none else some start)

  unfoldable pub store_start : Bool → Task → Task → M (Unit {0})
  store_start in_tx task moved =
      if moved.start_date == task.start_date
      then pure tt
      else if in_tx
      then update_task_tx e moved
      else update_task e moved

  -- stores the start date if it moved, in the transaction of the caller if there is one, and
  -- publishes
  unfoldable pub send_moved : Bool → Task → Time → M (Unit {0})
  send_moved in_tx task start = do
    let moved = record task { start_date = start }
    store_start in_tx task moved
    event ← build_schedule_task_event moved
    publish_task_event moved event

  unfoldable pub publish_at : Bool → Task → Outcome (Option Time) → M (Task × Outcome (Unit {0}))
  publish_at in_tx task panicked = lift panicked
  publish_at in_tx task (err x) = pure (task, err x)
  publish_at in_tx task (ok none) = pure (task, ok tt)
  publish_at in_tx task (ok (some start)) = do
    sent ← attempt (send_moved in_tx task start)
    pure (record task { start_date = start }, sent)

  -- publishScheduleTaskEvent; `in_tx` says whether `tx` is not nil. The task is returned too, since
  -- its start date may have moved, also where an error follows.
  unfoldable pub publish_schedule_task_event : Bool → Task → Bool → M (Task × Outcome (Unit {0}))
  publish_schedule_task_event in_tx task advance = do
    start ← attempt (effective_start task advance)
    publish_at in_tx task start

  -- publishScheduleForTaskAfterUnmute
  unfoldable pub publish_schedule_after_unmute : Task → M (Task × Outcome (Unit {0}))
  publish_schedule_after_unmute task = publish_schedule_task_event false task true

  -- ActivityTracker.Touch
  unfoldable pub touch : ℕ → M (Unit {0})
  touch id = do outside e; modify (λ w. record w { activity = w.activity ++ id ∷ [] })

  -- touchUserActivity
  unfoldable pub touch_user_activity : ℕ → M (Unit {0})
  touch_user_activity id = if ltb 0 id then best_effort (touch id) else pure tt

  -- notifyCalendarExport: the call of the hook is recorded, if a hook is set
  unfoldable pub notify_calendar_export : ℕ → Text → M (Unit {0})
  notify_calendar_export id action =
      if e.has_export_hook
      then modify (λ w. record w { exports = w.exports ++ (id, action) ∷ [] })
      else pure tt
