-- ===== src/Examples/Updates.antt =====
-- Examples of UpdateTask.
use goreminder.Prelude.{◌≡◌, refl, true, false, none, some}
use goreminder.Prelude.Int.{pos}
use goreminder.Text.{codes}
use goreminder.Errors.{ok, is_ok}
use goreminder.Models.{Task, is_valid_status}
use goreminder.PreRemind.{IsOffset, apply_pre_remind_update, validate_pre_remind, pre_remind_equal}
use goreminder.Recurrence.Rules.{
  validate_exclusive, recurrence_field_changed, has_recurrence_rule,
  is_recurrence_parent_with_confirmation,
}
use goreminder.Service.World.{◌>>=◌, pure, lift, gets, modify, best_effort, outside, time_now}
use goreminder.Service.Repository.{
  get_task, first_row, or_not_found, update_task as store_task, update_task_tx, tx_write,
  create_task_history,
}
use goreminder.Service.Repository.Transaction.{begin, guarded, transaction}
use goreminder.Service.Publish.{notify_calendar_export, touch, touch_user_activity}
use goreminder.Service.Effects.{record_history}
use goreminder.Service.Create.{check_rrule, validate_shift_from_completion_series}
use goreminder.Service.Update.Request.{TaskUpdateRequest, Change, apply_request}
use goreminder.Service.Update.Refused.{update_task-refused}
use goreminder.Service.Update.Checks.{update_task-IsStorable}
use goreminder.Service.Update.Rollback.{update_in_tx-atomic}
use goreminder.Service.Update.{
  checked_change, check_change, publish_own, publish_own_change, publish_own_mute, update_in_tx,
  store_change, store_single, start_series, record_change, after_update, update_found, update_task,
}
use goreminder.Examples.{reminder, weekly, env, world}

abbrev empty_request : TaskUpdateRequest
empty_request = record {
  title = none;
  description = none;
  status = none;
  start_date = none;
  finish_date = none;
  cron_expression = none;
  rrule = none;
  requires_confirmation = none;
  muted = none;
  shift_from_completion = none;
  skip_digest = none;
  pre_remind_before_seconds = none;
  group_id = none;
}

-- the digest skips the task, and the reminder before it is dropped
abbrev request : TaskUpdateRequest
request = record empty_request { skip_digest = some true; pre_remind_before_seconds = some (pos 0) }

abbrev changed : Task
changed = record reminder { skip_digest = true; pre_remind_before_seconds = none }

-- a status that does not exist
abbrev bogus : TaskUpdateRequest
bogus = record empty_request { status = some (codes "sleeping") }

found : (get_task (env none) 1 world).0 ≡ ok reminder
unfolding get_task outside gets or_not_found first_row pure ◌>>=◌
found = refl

not_applied :
    is_ok (checked_change (env none) reminder bogus (get_task (env none) 1 world).1).0 ≡ false
unfolding get_task outside gets or_not_found first_row pure ◌>>=◌ checked_change lift apply_request
    is_valid_status
not_applied = refl

update_task-refused_example :
    (is_ok (update_task (env none) 1 bogus world).0 ≡ false)
    × (record (update_task (env none) 1 bogus world).1 { calls = 0 } ≡ record world { calls = 0 })
update_task-refused_example =
    update_task-refused (env none) 1 bogus world reminder found not_applied

updated : (update_task (env none) 1 request world).0 ≡ ok changed
unfolding get_task outside gets or_not_found first_row pure ◌>>=◌ checked_change lift apply_request
    apply_pre_remind_update validate_pre_remind check_change validate_exclusive check_rrule
    validate_shift_from_completion_series store_change store_single publish_own publish_own_change
    publish_own_mute start_series record_change after_update update_found update_task store_task
    modify recurrence_field_changed pre_remind_equal is_recurrence_parent_with_confirmation
    has_recurrence_rule record_history create_task_history best_effort touch touch_user_activity
    notify_calendar_export goreminder.Recurrence.Rules.recurrence_field_set
    goreminder.Service.Update.republish_if_applicable
    goreminder.Service.Publish.should_republish_after_unmute goreminder.Service.Mute.republish
    time_now
updated = refl

update_task-IsStorable_example :
    (validate_exclusive changed.cron_expression changed.rrule ≡ ok tt)
    × IsOffset changed.pre_remind_before_seconds
update_task-IsStorable_example =
    update_task-IsStorable (env none) 1 request world reminder changed found (refl, refl) updated

-- a series gets a title, and the statement for its row fails
abbrev renamed : Change
renamed = record {
  old = weekly;
  new = record weekly { title = codes "water all plants" };
  request = record empty_request { title = some (codes "water all plants") };
}

is_series : is_recurrence_parent_with_confirmation renamed.new ≡ true
unfolding is_recurrence_parent_with_confirmation goreminder.Recurrence.Rules.recurrence_field_set
    goreminder.Text.trim_space goreminder.Text.trim_left goreminder.Text.trim_right
    goreminder.Text.is_space
is_series = refl

not_updated :
    is_ok (transaction (env (some 1)) (update_in_tx (env (some 1)) renamed) world).0 ≡ false
unfolding transaction begin guarded update_in_tx update_task_tx tx_write outside modify pure ◌>>=◌
not_updated = refl

update_in_tx-atomic_example :
    (transaction (env (some 1)) (update_in_tx (env (some 1)) renamed) world).1.tasks ≡ world.tasks
update_in_tx-atomic_example = update_in_tx-atomic (env (some 1)) renamed world is_series not_updated
