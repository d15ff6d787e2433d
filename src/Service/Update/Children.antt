-- ===== src/Service/Update/Children.antt =====
-- internal/service/task_service.go: how UpdateTask brings the children of a series up to date.
use goreminder.Prelude.{
  Bool, true, false, not, ◌||◌, Option, none, some, List, [], ◌∷◌, ◌++◌, null, is_some, ◌==◌,
  if◌then◌else◌,
}
use goreminder.Text.{Text}
use goreminder.Errors.{Outcome, ok, err, panicked, ◌>>=◌ as ◌>=>◌}
use goreminder.Clock.{Time, is_zero, before}
use goreminder.Models.{Task, status_done}
use goreminder.PreRemind.{clone_pre_remind}
use goreminder.Recurrence.Rules.{recurrence_field_set}
use goreminder.Recurrence.Next.{
  cron_next, advance_if_before, next_start_from_rrule, next_executable_start_date, text_or_empty,
}
use goreminder.Service.World.{Env, M, pure, lift, attempt, best_effort, time_now, ◌>>=◌, ◌>>◌}
use goreminder.Service.Repository.{
  has_status, update_task_tx, delete_task_tx, delete_child_tasks_tx,
}
use goreminder.Service.Publish.{
  get_messenger_name, publish_task_event, require_related, delete_event, load_parent,
  build_schedule_task_event, should_republish_after_unmute,
}
use goreminder.Service.Effects.{is_closed}
use goreminder.Service.Delete.{publish_deletes}
use goreminder.Service.Mute.{publish_removal}
use goreminder.Service.Update.Request.{
  Change, title_changed, description_changed, start_date_changed, recurrence_schedule_changed,
  pre_remind_changed, finish_date_changed, mute_transition,
}

-- the columns that a child takes from its parent
abbrev pub copy_to_child : Change → Task → Task
copy_to_child c child = record child {
  muted = if is_some c.request.muted then c.new.muted else child.muted;
  skip_digest = if is_some c.request.skip_digest then c.new.skip_digest else child.skip_digest;
  pre_remind_before_seconds =
      if is_some c.request.pre_remind_before_seconds
      then clone_pre_remind c.new.pre_remind_before_seconds
      else child.pre_remind_before_seconds;
  group_id = if is_some c.request.group_id then c.new.group_id else child.group_id;
  title = if title_changed c then c.new.title else child.title;
  description = if description_changed c then c.new.description else child.description;
  finish_date = if finish_date_changed c then c.new.finish_date else child.finish_date;
}

abbrev pub child_columns_change : Change → Bool
child_columns_change c =
    is_some c.request.muted
    || is_some c.request.skip_digest
    || is_some c.request.pre_remind_before_seconds
    || is_some c.request.group_id
    || title_changed c
    || description_changed c
    || finish_date_changed c

module _ (e : Env) where
  -- an RRULE without a next occurrence leaves the date; a cron expression must parse
  unfoldable pub start_of_rule : Outcome Time → M (Option Time)
  start_of_rule (ok t) = pure (some t)
  start_of_rule (err x) = pure none
  start_of_rule panicked = lift panicked

  -- the cron branch: MustParse may panic
  unfoldable pub next_of_cron : Text → Time → Outcome Time
  next_of_cron s now = cron_next e.lib s now >=> advance_if_before e.lib s now

  -- the new start date of a child, if it has one
  unfoldable pub child_start : Change → M (Option Time)
  child_start c =
      if recurrence_schedule_changed c || start_date_changed c
      then if recurrence_field_set c.new.cron_expression
        then (do
          now ← time_now e
          start ← lift (next_of_cron (text_or_empty c.new.cron_expression) now)
          pure (some start))
        else if recurrence_field_set c.new.rrule
        then (do
          now ← time_now e
          start_of_rule
              (next_start_from_rrule e.lib now (text_or_empty c.new.rrule) c.new.start_date))
        else pure (if start_date_changed c then some c.new.start_date else none)
      else pure none

  -- what prepareChildScheduleStartDate stores; the date has moved also where the update fails
  unfoldable pub store_prepared : Task → Outcome Time → M (Task × Outcome (Unit {0}))
  store_prepared task panicked = lift panicked
  store_prepared task (err x) = pure (task, err x)
  store_prepared task (ok start) =
      if is_zero start || start == task.start_date then pure (task, ok tt) else do
        stored ← attempt (update_task_tx e (record task { start_date = start }))
        pure (record task { start_date = start }, stored)

  -- prepareChildScheduleStartDate
  unfoldable pub prepare_child_schedule_start_date : Task → Bool → M (Task × Outcome (Unit {0}))
  prepare_child_schedule_start_date task advance = do
    now ← time_now e
    (if not (before task.start_date now) || not advance then pure (task, ok tt) else do
      start ← attempt (do
        parent ← load_parent e task.parent_id true
        lift (next_executable_start_date e.lib task parent now))
      store_prepared task start)

  -- whether a prepared child is to be published
  unfoldable pub due_after : Task × Outcome (Unit {0}) → M (Task × Bool)
  due_after (task, panicked) = lift panicked
  due_after (task, err x) = pure (task, false)
  due_after (task, ok _) = do now ← time_now e; pure (task, not (before task.start_date now))

  unfoldable pub prepare_publish : Task → Bool → M (Task × Bool)
  prepare_publish task advance = do
    applicable ← should_republish_after_unmute e task
    if not applicable
        then pure (task, false)
        else do prepared ← prepare_child_schedule_start_date task advance; due_after prepared

  unfoldable pub publish_mute_change : Change → Task → M (Task × Bool)
  publish_mute_change c child =
      if not (mute_transition c)
      then pure (child, false)
      else if c.new.muted
      then (do publish_removal e child; pure (child, false))
      else prepare_publish child true

  abbrev copies : Bool → Task → List Task
  copies b child = if b then child ∷ [] else []

  -- the update of one child: what is to be published for it after the commit
  unfoldable pub store_child : Change → Task → Bool → M (List Task)
  store_child c child start_updated = do
    update_task_tx e child
    (child', first) ←
        (if start_updated || title_changed c || description_changed c || pre_remind_changed c
          then prepare_publish child start_updated
          else pure (child, false))
    (child'', second) ← publish_mute_change c child'
    pure (copies first child'' ++ copies second child'')

  abbrev moved : Option Time → Task → Task
  moved none child = child
  moved (some start) child = record child { start_date = start }

  unfoldable pub sync_child : Change → Task → M (List Task)
  sync_child c child = if has_status child status_done then pure [] else do
    start ← child_start c
    (if child_columns_change c || is_some start
        then store_child c (moved start (copy_to_child c child)) (is_some start)
        else pure [])

  unfoldable pub sync_children : Change → List Task → M (List Task)
  sync_children c [] = pure []
  sync_children c (child ∷ children) = do
    publishes ← sync_child c child
    rest ← sync_children c children
    pure (publishes ++ rest)

  unfoldable pub publish_child_schedule : Task → M (Unit {0})
  publish_child_schedule child =
      best_effort (do event ← build_schedule_task_event e child; publish_task_event e child event)

  -- after the commit
  unfoldable pub publish_child_schedules : List Task → M (Unit {0})
  publish_child_schedules [] = pure tt
  publish_child_schedules (child ∷ children) = do
    publish_child_schedule child
    publish_child_schedules children

  -- a series that no longer waits for confirmations loses its children
  unfoldable pub delete_all_children : Task → List Task → M (Unit {0})
  delete_all_children task children = if null children then pure tt else do
    id ← require_related e task.messenger_related_user_id
    name ← get_messenger_name e id
    delete_child_tasks_tx e task.id
    publish_deletes e name children

  unfoldable pub delete_open_child : Text → Task → M (Unit {0})
  delete_open_child name child =
      if is_closed child
      then pure tt
      else do delete_task_tx e child.id; publish_task_event e child (delete_event child.id name)

  unfoldable pub delete_open_each : Text → List Task → M (Unit {0})
  delete_open_each name [] = pure tt
  delete_open_each name (child ∷ children) = do
    delete_open_child name child
    delete_open_each name children

  -- a series without a rule loses its open children
  unfoldable pub delete_open_children : Task → List Task → M (Unit {0})
  delete_open_children task children = if null children then pure tt else do
    id ← require_related e task.messenger_related_user_id
    name ← get_messenger_name e id
    delete_open_each name children
