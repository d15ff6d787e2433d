-- ===== src/Examples/Tasks.antt =====
-- Examples of the task service and of its scheduler.
use goreminder.Clock.{hour, day}
use goreminder.Errors.{ok, is_ok}
use goreminder.Examples.{hourly, hourly-Advances, reminder, weekly, env, world}
use goreminder.Models.{Task, is_valid_status}
use goreminder.PreRemind.{validate_pre_remind}
use goreminder.Prelude.{ℕ, suc, ◌+◌, ◌*◌, ◌<◌, ◌≤◌, ◌≡◌, ◌⊎◌, refl, true, false, none, some}
use goreminder.Recurrence.Next.{text_or_empty}
use goreminder.Recurrence.Next.Advance.{HasNext}
use goreminder.Recurrence.Rules.{
  has_recurrence_rule, is_recurrence_parent_with_confirmation, validate_exclusive,
}
use goreminder.Service.Complete.{complete_open_task, complete_in_tx, update_shifted_parent}
use goreminder.Service.Series.{
  flag_of_parent, parent_stores_completion_shift, prepared, require_that, wants_shift,
}
use goreminder.Service.Complete.Rollback.{complete_open_task-atomic}
use goreminder.Service.Create.{
  create_task, after_create, check_messenger, check_new_task, check_rrule, child_id_of,
  create_first_child, default_status, get_user, validate_shift_from_completion_series,
}
use goreminder.Service.Create.Checks.{create_task-atomic}
use goreminder.Service.Create.Stored.{Stored, create_task-Stored}
use goreminder.Service.Delete.{
  delete_task, after_delete, delete_children_in_tx, delete_in_tx, delete_with_tx,
}
use goreminder.Service.Delete.Gone.{delete_task-deletes}
use goreminder.Service.Delete.Rollback.{delete_task-atomic}
use goreminder.Service.Effects.{purge_attachments, record_history}
use goreminder.Service.Mute.{mute_task, for_children, mute_open, publish_removal}
use goreminder.Service.Mute.Silence.{mute_task-mutes}
use goreminder.Service.Publish.{
  build_delete_task_event, get_messenger_by_id, get_messenger_name, get_messenger_related_user,
  messenger_name_from_related_user, messenger_name_of, notify_calendar_export, or_row_not_found,
  publish, publish_task_event, require_related, touch, touch_user_activity,
}
use goreminder.Service.Repository.{
  is_row, first_row, create_task_history, delete_task_tx, get_task_any_status, insert_task,
  or_not_found, tx_write, update_task, update_task_tx,
}
use goreminder.Service.Repository.Transaction.{begin, commit, guarded, transaction}
use goreminder.Service.Reschedule.{
  next_day_same_time, rescheduled_start, reschedule_task, add_days_until, load_parent_of,
  publish_rescheduled,
}
use goreminder.Service.Reschedule.Days.{next_day_same_time_lem, rescheduled_start-lt}
use goreminder.Service.Reschedule.Silent.{reschedule_task_muted}
use goreminder.Service.Reschedule.Rollback.{reschedule_task-atomic}
use goreminder.Service.World.{
  ◌>>=◌, pure, raise, lift, attempt, map_err, gets, modify, best_effort, outside, time_now,
}
use goreminder.Text.{trim_space}

-- the fifth call, the one of the queue, fails
unqueued : is_ok (complete_open_task (env (some 5)) reminder none world).0 ≡ false
unfolding complete_in_tx complete_open_task flag_of_parent parent_stores_completion_shift prepared
    require_that update_shifted_parent wants_shift get_messenger_by_id get_messenger_name
    get_messenger_related_user messenger_name_from_related_user messenger_name_of or_row_not_found
    publish publish_task_event require_related tx_write update_task_tx begin guarded transaction
    map_err modify outside pure time_now ◌>>=◌
unqueued = refl

complete_open_task-atomic_example :
    (complete_open_task (env (some 5)) reminder none world).1.tasks ≡ world.tasks
complete_open_task-atomic_example =
    complete_open_task-atomic (env (some 5)) reminder none world unqueued

undeleted : is_ok (delete_task (env (some 6)) 1 world).0 ≡ false
unfolding has_recurrence_rule delete_children_in_tx delete_in_tx delete_task delete_with_tx
    get_messenger_by_id get_messenger_name get_messenger_related_user
    messenger_name_from_related_user messenger_name_of or_row_not_found publish publish_task_event
    require_related delete_task_tx first_row get_task_any_status or_not_found tx_write begin guarded
    transaction gets map_err modify outside pure time_now ◌>>=◌
undeleted = refl

delete_task-atomic_example : (delete_task (env (some 6)) 1 world).1.tasks ≡ world.tasks
delete_task-atomic_example = delete_task-atomic (env (some 6)) 1 world undeleted

deleted : (delete_task (env none) 1 world).0 ≡ ok tt
unfolding has_recurrence_rule after_delete delete_children_in_tx delete_in_tx delete_task
    delete_with_tx purge_attachments record_history get_messenger_by_id get_messenger_name
    get_messenger_related_user messenger_name_from_related_user messenger_name_of
    notify_calendar_export or_row_not_found publish publish_task_event require_related touch
    touch_user_activity create_task_history delete_task_tx first_row get_task_any_status
    or_not_found tx_write begin commit guarded transaction best_effort gets map_err modify outside
    pure time_now ◌>>=◌
deleted = refl

delete_task-deletes_example : first_row (is_row 1) (delete_task (env none) 1 world).1.tasks ≡ none
delete_task-deletes_example = delete_task-deletes (env none) 1 world deleted

uncreated : is_ok (create_task (env (some 3)) reminder world).0 ≡ false
unfolding is_valid_status validate_pre_remind validate_exclusive check_messenger check_new_task
    check_rrule create_task default_status get_user validate_shift_from_completion_series
    get_messenger_by_id get_messenger_related_user messenger_name_from_related_user
    messenger_name_of or_row_not_found insert_task lift map_err outside pure ◌>>=◌
uncreated = refl

create_task-atomic_example : (create_task (env (some 3)) reminder world).1.tasks ≡ world.tasks
create_task-atomic_example = create_task-atomic (env (some 3)) reminder world uncreated

created : (create_task (env none) weekly world).0 ≡ ok (3, 4)
unfolding is_valid_status validate_pre_remind is_recurrence_parent_with_confirmation
    validate_exclusive after_create check_messenger check_new_task check_rrule child_id_of
    create_first_child create_task default_status get_user validate_shift_from_completion_series
    record_history get_messenger_by_id get_messenger_related_user messenger_name_from_related_user
    messenger_name_of notify_calendar_export or_row_not_found touch touch_user_activity
    create_task_history insert_task attempt best_effort gets lift map_err modify outside pure ◌>>=◌
    trim_space
created = refl

-- a task for a user that is not there
abbrev stranger : Task
stranger = record reminder { user_id = 8 }

refused : is_ok (create_task (env none) stranger world).0 ≡ false
unfolding check_new_task create_task get_user map_err outside raise ◌>>=◌
refused = refl

muted : (mute_task (env none) 1 world).0 ≡ ok (record reminder { muted = true })
unfolding is_recurrence_parent_with_confirmation record_history for_children mute_open mute_task
    publish_removal build_delete_task_event get_messenger_by_id get_messenger_name
    get_messenger_related_user messenger_name_from_related_user messenger_name_of or_row_not_found
    publish publish_task_event require_related touch touch_user_activity create_task_history
    first_row get_task_any_status or_not_found update_task best_effort gets map_err modify outside
    pure ◌>>=◌
muted = refl

mute_task-mutes_example :
    (t : Task) × (first_row (is_row 1) (mute_task (env none) 1 world).1.tasks ≡ some t)
    × (t.muted ≡ true)
mute_task-mutes_example =
    mute_task-mutes (env none) 1 (record reminder { muted = true }) world muted

create_task-Stored_example :
    Stored weekly world.tasks (3, 4) (create_task (env none) weekly world).1
create_task-Stored_example = create_task-Stored (env none) weekly world (3, 4) created

next_day_same_time_lem_example :
    (k : ℕ) × (next_day_same_time (20 * day) reminder.start_date
      ≡ reminder.start_date + suc k * day)
    × (20 * day < next_day_same_time (20 * day) reminder.start_date)
    × ((k ≡ 0) ⊎ (next_day_same_time (20 * day) reminder.start_date ≤ 20 * day + day))
next_day_same_time_lem_example = next_day_same_time_lem (20 * day) reminder.start_date

no_parent : (p : Task) → none ≡ some p → HasNext hourly (text_or_empty p.cron_expression) (20 * day)
no_parent p e = cc

-- the reminder of the tenth day, on the twentieth
next_morning : rescheduled_start hourly reminder none (20 * day) ≡ ok (20 * day + 9 * hour)
unfolding add_days_until next_day_same_time rescheduled_start
next_morning = refl

rescheduled_start-lt_example : 20 * day < 20 * day + 9 * hour
rescheduled_start-lt_example =
    rescheduled_start-lt hourly hourly-Advances reminder none (20 * day) (20 * day + 9 * hour)
      no_parent next_morning

-- the third call, the one of the queue, fails
not_rescheduled : is_ok (reschedule_task (env (some 3)) reminder world).0 ≡ false
unfolding get_messenger_by_id get_messenger_related_user messenger_name_from_related_user
    messenger_name_of or_row_not_found publish publish_task_event require_related load_parent_of
    publish_rescheduled reschedule_task rescheduled_start lift map_err outside pure time_now ◌>>=◌
not_rescheduled = refl

reschedule_task-atomic_example :
    (reschedule_task (env (some 3)) reminder world).1.tasks ≡ world.tasks
reschedule_task-atomic_example =
    reschedule_task-atomic (env (some 3)) reminder world not_rescheduled

reschedule_task_muted_example :
    (reschedule_task (env none) (record reminder { muted = true }) world).1.queue ≡ world.queue
reschedule_task_muted_example =
    reschedule_task_muted (env none) (record reminder { muted = true }) world refl
