-- ===== src/Service/Create.antt =====
-- internal/service/task_service.go: CreateTask.
pub mod Checks
pub mod Stored
use goreminder.Prelude.{
  ℕ, ◌+◌, Bool, true, false, not, ◌||◌, Option, none, some, List, [], null, is_some, if◌then◌else◌,
}
use goreminder.Text.{Text, codes}
use goreminder.Errors.{
  Err, Outcome, ok, err, panicked, not_found, validation, not_found_as_unprocessable, or_err,
}
use goreminder.Clock.{Time, is_zero}
use goreminder.Models.{Task, status_pending, is_valid_status}
use goreminder.PreRemind.{validate_pre_remind, clear_zero_offset}
use goreminder.Recurrence.Rules.{
  recurrence_field_set, validate_exclusive, validate_rrule_string,
  is_recurrence_parent_with_confirmation,
}
use goreminder.Recurrence.Next.{text_or_empty}
use goreminder.Recurrence.Shift.{CompletionShift, shift_recurrence_from_completion}
use goreminder.Service.World.{
  Env, World, M, pure, raise, lift, attempt, map_err, outside, time_now, ◌>>=◌, ◌>>◌,
}
use goreminder.Service.Repository.{insert_task}
use goreminder.Service.Publish.{
  task_to_map, get_messenger_related_user, messenger_name_from_related_user, touch_user_activity,
  notify_calendar_export,
}
use goreminder.Service.Effects.{new_child, history_of, record_history}

unfoldable pub default_status : Text → Outcome Text
default_status status =
    if null status
    then ok status_pending
    else if is_valid_status status
    then ok status
    else err validation

module _ (e : Env) where
  -- GetUserByID
  unfoldable pub get_user : ℕ → M (Unit {0})
  get_user id = do outside e; if e.user_exists id then pure tt else raise not_found

  unfoldable pub check_messenger : Option ℕ → M (Unit {0})
  check_messenger none = pure tt
  check_messenger (some id) = do
    related ← map_err not_found_as_unprocessable (get_messenger_related_user e id)
    messenger_name_from_related_user e related
    pure tt

  unfoldable pub check_rrule : Task → M (Unit {0})
  check_rrule task =
      if recurrence_field_set task.rrule
      then lift (
          or_err validation
            (validate_rrule_string e.lib (text_or_empty task.rrule) task.start_date))
      else pure tt

  unfoldable pub clock_of : Time → M Time
  clock_of start = if is_zero start then time_now e else pure start

  -- validateShiftFromCompletionSeries
  unfoldable pub validate_shift_from_completion_series : Task → M (Unit {0})
  validate_shift_from_completion_series task =
      if not task.shift_from_completion
      then pure tt
      else if is_some task.parent_id || not (is_recurrence_parent_with_confirmation task)
      then raise validation
      else (do
        clock ← clock_of task.start_date
        lift (or_err validation (shift_recurrence_from_completion e.lib task clock clock))
        pure tt)

  abbrev with_status : Task → Text → Task
  with_status task status = record task { status = status }

  -- the checks in order, and the row to insert
  unfoldable pub check_new_task : Task → M Task
  check_new_task task = do
    map_err not_found_as_unprocessable (get_user task.user_id)
    status ← lift (default_status task.status)
    check_messenger task.messenger_related_user_id
    lift (validate_exclusive task.cron_expression task.rrule)
    check_rrule task
    lift (validate_pre_remind task.pre_remind_before_seconds)
    validate_shift_from_completion_series (with_status task status)
    pure (record task {
      status = status;
      pre_remind_before_seconds = clear_zero_offset task.pre_remind_before_seconds;
    })

  unfoldable pub child_id_of : Outcome ℕ → M ℕ
  child_id_of (ok id) = pure id
  child_id_of (err x) = pure 0
  child_id_of panicked = lift panicked

  -- the first child of a confirmation parent; an error leaves its id 0
  unfoldable pub create_first_child : Task → M ℕ
  create_first_child task =
      if is_recurrence_parent_with_confirmation task
      then (do
        id ← attempt (insert_task e (new_child task task.id task.start_date status_pending))
        child_id_of id)
      else pure 0

  -- everything after the insert of the row
  unfoldable pub after_create : Task → M (ℕ × ℕ)
  after_create task = do
    record_history e (history_of task (codes "created") [] (task_to_map task))
    child ← create_first_child task
    touch_user_activity e task.user_id
    notify_calendar_export e task.id (codes "created")
    pure (task.id, child)

  -- the ids of the task and of its child
  unfoldable pub create_task : Task → M (ℕ × ℕ)
  create_task task = do
    row ← check_new_task task
    id ← insert_task e row
    after_create (record row { id = id })
