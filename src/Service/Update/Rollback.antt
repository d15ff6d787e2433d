-- ===== src/Service/Update/Rollback.antt =====
-- The transaction in which UpdateTask (internal/service/task_service.go) updates a series and its
-- children.
use goreminder.Prelude.{
  ℕ, null, ◌≡◌, refl, Bool, true, false, not, ◌&&◌, ◌||◌, Option, none, some, List, [], ◌∷◌, arith,
  is_some, ◌==◌,
}
use goreminder.Errors.{Outcome, ok, err, panicked, is_ok}
use goreminder.Clock.{Time, before, is_zero}
use goreminder.Models.{Task, status_done}
use goreminder.Recurrence.Rules.{
  recurrence_field_set, is_recurrence_parent_with_confirmation, has_recurrence_rule,
}
use goreminder.Service.World.{Env, World, M}
use goreminder.Service.World.Keeps.{
  Keeps, Keeps-pure, Keeps-lift, Keeps-attempt, Keeps-best_effort, Keeps-if, Keeps-then, Keeps-bind,
  Keeps-time_now,
}
use goreminder.Service.Repository.{has_status}
use goreminder.Service.Repository.Transaction.{SameTasks, transaction}
use goreminder.Service.Repository.Transaction.Atomic.{transaction-FailsSafe}
use goreminder.Service.Publish.{load_parent, should_republish_after_unmute}
use goreminder.Service.Mute.{publish_removal}
use goreminder.Service.Frame.{
  SameTasks-Blind, get_child_tasks-Keeps, get_task_any_status-Keeps, build_delete_task_event-Keeps,
  publish_task_event-Keeps, update_task_tx-SameTasks,
}
use goreminder.Service.Update.Request.{
  Change, start_date_changed, recurrence_schedule_changed, title_changed, description_changed,
  pre_remind_changed, mute_transition, is_parent, recurrence_removed, requires_confirmation_removed,
}
use goreminder.Service.Update.Children.{
  start_of_rule, child_start, store_prepared, prepare_child_schedule_start_date, due_after,
  prepare_publish, publish_mute_change, store_child, sync_child, sync_children,
  child_columns_change,
}
use goreminder.Service.Update.{publish_own, publish_parent_mute, sync_in_tx, update_in_tx}

module _ (e : Env) (rows : List Task) where
  removal-Keeps : (t : Task) → Keeps (SameTasks rows) (publish_removal e t)
  unfolding publish_removal
  removal-Keeps t = Keeps-best_effort _ (
      Keeps-bind _ _ (build_delete_task_event-Keeps e (SameTasks-Blind rows).ticks t)
        λ event. publish_task_event-Keeps e (SameTasks-Blind rows) t event)

  parent_mute-Keeps : (c : Change) (t : Task) → Keeps (SameTasks rows) (publish_parent_mute e c t)
  unfolding publish_parent_mute
  parent_mute-Keeps c t =
      Keeps-if (mute_transition c && t.muted) _ _ (λ _. removal-Keeps t) (λ _. Keeps-pure tt)

  clock-Keeps : Keeps (SameTasks rows) (goreminder.Service.World.time_now e)
  clock-Keeps = Keeps-time_now e (λ w h. h)

  start_of_rule-Keeps : (r : Outcome Time) → Keeps (SameTasks rows) (start_of_rule e r)
  unfolding start_of_rule
  start_of_rule-Keeps (ok t) = Keeps-pure _
  start_of_rule-Keeps (err x) = Keeps-pure _
  start_of_rule-Keeps panicked = Keeps-lift _

  child_start-Keeps : (c : Change) → Keeps (SameTasks rows) (child_start e c)
  unfolding child_start
  child_start-Keeps c =
      Keeps-if (recurrence_schedule_changed c || start_date_changed c) _ _
        (λ _.
          Keeps-if (recurrence_field_set c.new.cron_expression) _ _
            (λ _.
              Keeps-bind _ _ clock-Keeps λ now. Keeps-bind _ _ (Keeps-lift _) (λ s. Keeps-pure _))
            λ _.
              Keeps-if (recurrence_field_set c.new.rrule) _ _
                (λ _. Keeps-bind _ _ clock-Keeps (λ now. start_of_rule-Keeps _))
                (λ _. Keeps-pure _))
        (λ _. Keeps-pure none)

  store_prepared-Keeps :
      (t : Task) (r : Outcome Time) → Keeps (SameTasks rows) (store_prepared e t r)
  unfolding store_prepared
  store_prepared-Keeps t panicked = Keeps-lift _
  store_prepared-Keeps t (err x) = Keeps-pure _
  store_prepared-Keeps t (ok start) =
      Keeps-if (is_zero start || start == t.start_date) _ _ (λ _. Keeps-pure _)
        λ _.
          Keeps-bind _ _ (Keeps-attempt _ (update_task_tx-SameTasks e rows _))
            (λ stored. Keeps-pure _)

  load_parent-Keeps : (o : Option ℕ) (b : Bool) → Keeps (SameTasks rows) (load_parent e o b)
  unfolding load_parent
  load_parent-Keeps none b = Keeps-pure none
  load_parent-Keeps (some id) false = Keeps-pure none
  load_parent-Keeps (some id) true =
      Keeps-bind _ _ (get_task_any_status-Keeps e (λ w h. h) id) (λ p. Keeps-pure (some p))

  prepare_start-Keeps :
      (t : Task) (b : Bool) → Keeps (SameTasks rows) (prepare_child_schedule_start_date e t b)
  unfolding prepare_child_schedule_start_date
  prepare_start-Keeps t b = Keeps-bind _ _ clock-Keeps λ now.
      Keeps-if (not (before t.start_date now) || not b) _ _ (λ _. Keeps-pure _)
        λ _.
          Keeps-bind _ _
            (Keeps-attempt _
              (Keeps-bind _ _ (load_parent-Keeps t.parent_id true) (λ p. Keeps-lift _)))
            (store_prepared-Keeps t)

  due_after-Keeps :
      (t : Task) (r : Outcome (Unit {0})) → Keeps (SameTasks rows) (due_after e (t, r))
  unfolding due_after
  due_after-Keeps t panicked = Keeps-lift _
  due_after-Keeps t (err x) = Keeps-pure _
  due_after-Keeps t (ok _) = Keeps-bind _ _ clock-Keeps (λ now. Keeps-pure _)

  applicable-Keeps : (t : Task) → Keeps (SameTasks rows) (should_republish_after_unmute e t)
  unfolding should_republish_after_unmute
  applicable-Keeps t =
      Keeps-if (is_recurrence_parent_with_confirmation t) _ _ (λ _. Keeps-pure _)
        (λ _. Keeps-bind _ _ clock-Keeps (λ now. Keeps-pure _))

  prepare_publish-Keeps : (t : Task) (b : Bool) → Keeps (SameTasks rows) (prepare_publish e t b)
  unfolding prepare_publish
  prepare_publish-Keeps t b = Keeps-bind _ _ (applicable-Keeps t) λ applicable.
      Keeps-if (not applicable) _ _ (λ _. Keeps-pure _)
        (λ _.
          Keeps-bind _ _ (prepare_start-Keeps t b)
            (λ prepared. due_after-Keeps prepared.0 prepared.1))

  mute_change-Keeps : (c : Change) (t : Task) → Keeps (SameTasks rows) (publish_mute_change e c t)
  unfolding publish_mute_change
  mute_change-Keeps c t =
      Keeps-if (not (mute_transition c)) _ _ (λ _. Keeps-pure _)
        λ _.
          Keeps-if c.new.muted _ _ (λ _. Keeps-then _ _ (removal-Keeps t) (Keeps-pure _))
            (λ _. prepare_publish-Keeps t true)

  store_child-Keeps :
      (c : Change) (t : Task) (b : Bool) → Keeps (SameTasks rows) (store_child e c t b)
  unfolding store_child
  store_child-Keeps c t b = Keeps-then _ _ (update_task_tx-SameTasks e rows t) (
      Keeps-bind _ _
        (Keeps-if (b || title_changed c || description_changed c || pre_remind_changed c) _ _
          (λ _. prepare_publish-Keeps t b) (λ _. Keeps-pure _))
        λ first. Keeps-bind _ _ (mute_change-Keeps c first.0) (λ second. Keeps-pure _))

  sync_child-Keeps : (c : Change) (t : Task) → Keeps (SameTasks rows) (sync_child e c t)
  unfolding sync_child
  sync_child-Keeps c t =
      Keeps-if (has_status t status_done) _ _ (λ _. Keeps-pure _)
        λ _. Keeps-bind _ _ (child_start-Keeps c) λ start.
          Keeps-if (child_columns_change c || is_some start) _ _ (λ _. store_child-Keeps c _ _)
            (λ _. Keeps-pure _)

  sync_children-Keeps :
      (c : Change) (ts : List Task) → Keeps (SameTasks rows) (sync_children e c ts)
  unfolding sync_children
  sync_children-Keeps c [] = Keeps-pure []
  sync_children-Keeps c (t ∷ ts) =
      Keeps-bind _ _ (sync_child-Keeps c t)
        λ first. Keeps-bind _ _ (sync_children-Keeps c ts) (λ rest. Keeps-pure _)

parent-keeps_rule :
    (c : Change)
    → is_parent c ≡ true
    → (requires_confirmation_removed c ≡ false) × (recurrence_removed c ≡ false)
unfolding is_recurrence_parent_with_confirmation has_recurrence_rule
parent-keeps_rule c h = ground arith

module _ (e : Env) (rows : List Task) (c : Change) (parent : is_parent c ≡ true) where
  sync_in_tx-Keeps : (t : Task) (ts : List Task) → Keeps (SameTasks rows) (sync_in_tx e c t ts)
  unfolding sync_in_tx
  sync_in_tx-Keeps t ts =
      let (confirmed, ruled) = parent-keeps_rule c parent in
      Keeps-if (requires_confirmation_removed c) _ _ (λ r. cc (r, confirmed))
        λ _.
          Keeps-if (recurrence_removed c) _ _ (λ r. cc (r, ruled))
            λ _.
              Keeps-if (null ts) _ _
                (λ _. Keeps-then _ _ (parent_mute-Keeps e rows c t) (Keeps-pure _))
                (λ _. Keeps-bind _ _ (sync_children-Keeps e rows _ ts) (λ publishes. Keeps-pure _))

  publish_own-Keeps : Keeps (SameTasks rows) (publish_own e c)
  unfolding publish_own
  publish_own-Keeps = Keeps-if (is_parent c) _ _ (λ _. Keeps-pure _) (λ r. cc (r, parent))

  update_in_tx-Keeps : Keeps (SameTasks rows) (update_in_tx e c)
  unfolding update_in_tx
  update_in_tx-Keeps = Keeps-then _ _ (update_task_tx-SameTasks e rows c.new) (
      Keeps-bind _ _ publish_own-Keeps
        λ t. Keeps-bind _ _ (get_child_tasks-Keeps e (λ w h. h) c.old.id) (sync_in_tx-Keeps t))

-- The update of a task that is a series with confirmation after the request is atomic: if the
-- transaction of UpdateTask fails at the row, at a child or at the commit, the committed rows of
-- the parent and of all children are as before it.
pub update_in_tx-atomic :
    (e : Env) (c : Change) (w : World)
    → is_parent c ≡ true
    → is_ok (transaction e (update_in_tx e c) w).0 ≡ false
    → (transaction e (update_in_tx e c) w).1.tasks ≡ w.tasks
update_in_tx-atomic e c w parent failed =
    (transaction-FailsSafe e w.tasks _ (update_in_tx-Keeps e w.tasks c parent)).at w refl failed
