-- ===== src/Service/Update/Request.antt =====
-- internal/models/task_update_request.go, and what UpdateTask of internal/service/task_service.go
-- computes from a request and the rows before and after it. `none` is an omitted field.
use goreminder.Prelude.{
  ℕ, Bool, true, false, not, ◌&&◌, ◌||◌, Option, none, some, null, is_some, ◌==◌, if◌then◌else◌,
}
use goreminder.Prelude.Int.{ℤ}
use goreminder.Text.{Text, text_eq, trim_space}
use goreminder.Errors.{Outcome, validation, require, ◌>>◌}
use goreminder.Clock.{Time}
use goreminder.Models.{Task, is_valid_status}
use goreminder.PreRemind.{apply_pre_remind_update, pre_remind_equal}
use goreminder.Recurrence.Rules.{
  recurrence_field_changed, has_recurrence_rule, is_recurrence_parent_with_confirmation,
}

pub record TaskUpdateRequest : Type 0 where
  pub title : Option Text
  pub description : Option Text
  pub status : Option Text
  pub start_date : Option Time
  pub finish_date : Option Time
  pub cron_expression : Option Text
  pub rrule : Option Text
  pub requires_confirmation : Option Bool
  pub muted : Option Bool
  pub shift_from_completion : Option Bool
  pub skip_digest : Option Bool
  pub pre_remind_before_seconds : Option ℤ
  pub group_id : Option ℕ

-- `if request.F != nil { task.F = *request.F }`
abbrev pub given : {A : Type 0} → Option A → A → A
given none old = old
given (some new) old = new

-- the same for a field that may be null
abbrev pub given_option : {A : Type 0} → Option A → Option A → Option A
given_option none old = old
given_option (some new) old = some new

-- a blank text clears the field
abbrev pub given_rule : Option Text → Option Text → Option Text
given_rule none old = old
given_rule (some s) old = if null (trim_space s) then none else some s

-- 0 clears the group
abbrev pub given_group : Option ℕ → Option ℕ → Option ℕ
given_group none old = old
given_group (some g) old = if g == 0 then none else some g

abbrev valid_if_given : Option Text → Bool
valid_if_given none = true
valid_if_given (some s) = is_valid_status s

-- the fields that are copied without a check
abbrev pub with_request : TaskUpdateRequest → Task → Task
with_request r task = record task {
  title = given r.title task.title;
  description = given r.description task.description;
  status = given r.status task.status;
  start_date = given r.start_date task.start_date;
  finish_date = given_option r.finish_date task.finish_date;
  cron_expression = given_rule r.cron_expression task.cron_expression;
  rrule = given_rule r.rrule task.rrule;
  requires_confirmation = given r.requires_confirmation task.requires_confirmation;
  muted = given r.muted task.muted;
  shift_from_completion = given r.shift_from_completion task.shift_from_completion;
  skip_digest = given r.skip_digest task.skip_digest;
  group_id = given_group r.group_id task.group_id;
}

-- the partial update of the row, with its two checks
unfoldable pub apply_request : Task → TaskUpdateRequest → Outcome Task
apply_request task r = do
  require (valid_if_given r.status) validation
  apply_pre_remind_update (with_request r task) r.pre_remind_before_seconds

-- the row before and after the request was applied
pub record Change : Type 0 where
  pub old : Task
  pub new : Task
  pub request : TaskUpdateRequest

abbrev text_changed : Option Text → Text → Bool
text_changed none old = false
text_changed (some new) old = not (text_eq new old)

abbrev time_changed : Option Time → Time → Bool
time_changed none old = false
time_changed (some new) old = not (new == old)

abbrev finish_changed : Option Time → Option Time → Bool
finish_changed none none = false
finish_changed none (some old) = true
finish_changed (some new) none = true
finish_changed (some new) (some old) = not (new == old)

abbrev pub status_changed : Change → Bool
status_changed c = text_changed c.request.status c.old.status

abbrev pub title_changed : Change → Bool
title_changed c = text_changed c.request.title c.old.title

abbrev pub description_changed : Change → Bool
description_changed c = text_changed c.request.description c.old.description

abbrev pub start_date_changed : Change → Bool
start_date_changed c = time_changed c.request.start_date c.old.start_date

abbrev pub recurrence_schedule_changed : Change → Bool
recurrence_schedule_changed c =
    recurrence_field_changed c.request.cron_expression c.old.cron_expression
    || recurrence_field_changed c.request.rrule c.old.rrule

abbrev pub pre_remind_changed : Change → Bool
pre_remind_changed c =
    is_some c.request.pre_remind_before_seconds
    && not (pre_remind_equal c.old.pre_remind_before_seconds c.new.pre_remind_before_seconds)

-- an omitted finish date counts as a change where there was one
abbrev pub finish_date_changed : Change → Bool
finish_date_changed c = finish_changed c.request.finish_date c.old.finish_date

abbrev xor : Bool → Bool → Bool
xor true b = not b
xor false b = b

abbrev pub mute_transition : Change → Bool
mute_transition c = is_some c.request.muted && xor c.new.muted c.old.muted

abbrev pub was_parent : Change → Bool
was_parent c = is_recurrence_parent_with_confirmation c.old

abbrev pub is_parent : Change → Bool
is_parent c = is_recurrence_parent_with_confirmation c.new

abbrev pub recurrence_removed : Change → Bool
recurrence_removed c = was_parent c && not (has_recurrence_rule c.new)

abbrev pub requires_confirmation_removed : Change → Bool
requires_confirmation_removed c = c.old.requires_confirmation && not c.new.requires_confirmation

abbrev pub requires_confirmation_added : Change → Bool
requires_confirmation_added c =
    is_some c.request.requires_confirmation
    && not c.old.requires_confirmation
    && c.new.requires_confirmation
    && has_recurrence_rule c.new

abbrev pub enabling_shift : Change → Bool
enabling_shift c =
    is_some c.request.shift_from_completion
    && c.new.shift_from_completion
    && not c.old.shift_from_completion

abbrev pub has_other_changes : TaskUpdateRequest → Bool
has_other_changes r =
    is_some r.title
    || is_some r.description
    || is_some r.start_date
    || is_some r.finish_date
    || is_some r.cron_expression
    || is_some r.rrule
    || is_some r.requires_confirmation
    || is_some r.muted
    || is_some r.shift_from_completion
    || is_some r.skip_digest
    || is_some r.pre_remind_before_seconds
    || is_some r.group_id
