-- ===== src/Service/Update/Checks.antt =====
-- What UpdateTask (internal/service/task_service.go) refuses, and the rows that it stores.
use goreminder.Prelude.{
  null, ℕ, ◌≡◌, Bool, true, false, ◌&&◌, ◌||◌, not, Option, none, some, List, arith,
}
use goreminder.Errors.{Outcome, ok, err, panicked}
use goreminder.Clock.{Time}
use goreminder.Models.{Task, status_scheduled, status_deleted}
use goreminder.PreRemind.{IsOffset, apply_pre_remind_update-IsOffset}
use goreminder.Recurrence.Rules.{validate_exclusive}
use goreminder.Service.World.{Env, World}
use goreminder.Service.World.Returns.{
  Returns-const, Returns, Returns-ok, Returns-pure, Returns-lift, Returns-lift_ok, Returns-if,
  Returns-guarded, Returns-bind, Returns-after, run_after,
}
use goreminder.Service.Repository.{get_task, has_status}
use goreminder.Service.Repository.Transaction.{transaction}
use goreminder.Service.Publish.{
  publish_at, publish_schedule_task_event, publish_schedule_after_unmute,
}
use goreminder.Service.Mute.{publish_removal, logged_republication, republish}
use goreminder.Service.Update.Request.{
  TaskUpdateRequest, with_request, apply_request, Change, status_changed, title_changed,
  description_changed, start_date_changed, recurrence_schedule_changed, pre_remind_changed,
  mute_transition, was_parent, is_parent, requires_confirmation_removed, recurrence_removed,
}
use goreminder.Service.Update.{
  check_change, checked_change, republish_if_applicable, publish_own_change, publish_own_mute,
  publish_own, sync_in_tx, update_in_tx, store_series, store_single, store_change, after_update,
  update_task, update_found,
}

-- A row that may be stored: at most one recurrence rule, and no offset or a valid one.
abbrev pub IsStorable : Task → Type 0
IsStorable t =
    (validate_exclusive t.cron_expression t.rrule ≡ ok tt) × IsOffset t.pre_remind_before_seconds

apply_request-IsOffset :
    (old new : Task) (r : TaskUpdateRequest)
    → IsOffset old.pre_remind_before_seconds
    → apply_request old r ≡ ok new
    → IsOffset new.pre_remind_before_seconds
unfolding apply_request
apply_request-IsOffset old new r h e =
    (apply_pre_remind_update-IsOffset (with_request r old) new r.pre_remind_before_seconds h
      (ground arith)).0

module _ (e : Env) where
  publish_at-Returns :
      (in_tx : Bool) (t : Task)
      → IsStorable t
      → (r : Outcome (Option Time)) → Returns (publish_at e in_tx t r) (λ sent. IsStorable sent.0)
  unfolding publish_at
  publish_at-Returns in_tx t h panicked = Returns-lift _ tt
  publish_at-Returns in_tx t h (err x) = Returns-pure _ h
  publish_at-Returns in_tx t h (ok none) = Returns-pure _ h
  publish_at-Returns in_tx t h (ok (some start)) = Returns-after _ _ (λ sent. Returns-pure _ h)

  publish_schedule-Returns :
      (in_tx : Bool) (t : Task) (advance : Bool)
      → IsStorable t
      → Returns (publish_schedule_task_event e in_tx t advance) (λ sent. IsStorable sent.0)
  unfolding publish_schedule_task_event
  publish_schedule-Returns in_tx t advance h = Returns-after _ _ (publish_at-Returns in_tx t h)

  logged-Returns :
      (t : Task) (r : Outcome (Unit {0}))
      → IsStorable t
      → Returns (logged_republication e (t, r)) IsStorable
  unfolding logged_republication
  logged-Returns t panicked h = Returns-lift _ tt
  logged-Returns t (ok _) h = Returns-pure t h
  logged-Returns t (err x) h = Returns-pure t h

  pub republish-Returns : (t : Task) → IsStorable t → Returns (republish e t) IsStorable
  unfolding republish publish_schedule_after_unmute
  republish-Returns t h =
      Returns-bind _ _ (publish_schedule-Returns false t true h)
        (λ sent. logged-Returns sent.0 sent.1)

  republish_if-Returns :
      (t : Task) → IsStorable t → Returns (republish_if_applicable e t) IsStorable
  unfolding republish_if_applicable
  republish_if-Returns t h =
      Returns-after _ _ λ b. Returns-if b _ _ (λ _. republish-Returns t h) (λ _. Returns-pure t h)

  publish_own_change-Returns :
      (c : Change) → IsStorable c.new → Returns (publish_own_change e c) IsStorable
  unfolding publish_own_change
  publish_own_change-Returns c h =
      Returns-if (status_changed c && has_status c.new status_deleted) _ _
        (λ _. Returns-after (publish_removal e c.new) _ (λ _. Returns-pure c.new h))
        λ _.
          Returns-if
            ((status_changed c && has_status c.new status_scheduled)
              || title_changed c
              || description_changed c
              || start_date_changed c
              || recurrence_schedule_changed c
              || pre_remind_changed c)
            _ _ (λ _. republish_if-Returns c.new h) (λ _. Returns-pure c.new h)

  publish_own_mute-Returns :
      (c : Change) (t : Task) → IsStorable t → Returns (publish_own_mute e c t) IsStorable
  unfolding publish_own_mute
  publish_own_mute-Returns c t h =
      Returns-if (not (mute_transition c)) _ _ (λ _. Returns-pure t h)
        λ _.
          Returns-if t.muted _ _ (λ _. Returns-after _ _ (λ _. Returns-pure t h))
            (λ _. republish_if-Returns t h)

  publish_own-Returns : (c : Change) → IsStorable c.new → Returns (publish_own e c) IsStorable
  unfolding publish_own
  publish_own-Returns c h =
      Returns-if (is_parent c) _ _ (λ _. Returns-pure _ h)
        λ _. Returns-bind _ _ (publish_own_change-Returns c h) (publish_own_mute-Returns c)

  sync_in_tx-Returns :
      (c : Change) (t : Task) (children : List Task)
      → IsStorable t
      → Returns (sync_in_tx e c t children) (λ r. IsStorable r.0)
  unfolding sync_in_tx
  sync_in_tx-Returns c t children h =
      Returns-if (requires_confirmation_removed c) _ _
        (λ _. Returns-after _ _ λ _.
          Returns-bind _ _ (republish_if-Returns t h)
            λ t' h'. Returns-after _ _ (λ _. Returns-pure _ h'))
        λ _.
          Returns-if (recurrence_removed c) _ _
            (λ _. Returns-after _ _ λ _. Returns-after _ _ (λ _. Returns-pure _ h))
            λ _.
              Returns-if (null children) _ _ (λ _. Returns-after _ _ (λ _. Returns-pure _ h))
                (λ _. Returns-after _ _ (λ _. Returns-pure _ h))

  store_series-Returns : (c : Change) → IsStorable c.new → Returns (store_series e c) IsStorable
  unfolding store_series transaction update_in_tx
  store_series-Returns c h = Returns-after _ _ λ _.
      Returns-bind _ _
        (Returns-after _ _ λ _. Returns-guarded _ (
          Returns-bind _ _
            (Returns-after _ _ λ _.
              Returns-bind _ _ (publish_own-Returns c h)
                λ t ht. Returns-after _ _ (λ children. sync_in_tx-Returns c t children ht))
            (λ r hr. Returns-after _ _ (λ _. Returns-pure r hr))))
        (λ r hr. Returns-after _ _ (λ _. Returns-pure r.0 hr))

  store_change-Returns : (c : Change) → IsStorable c.new → Returns (store_change e c) IsStorable
  unfolding store_change store_single
  store_change-Returns c h =
      Returns-if (was_parent c || is_parent c) _ _ (λ _. store_series-Returns c h)
        (λ _. Returns-after _ _ (λ _. publish_own-Returns c h))

  check_change-Returns :
      (c : Change)
      → Returns
          (check_change e c)
          (λ _. validate_exclusive c.new.cron_expression c.new.rrule ≡ ok tt)
  unfolding check_change
  check_change-Returns c =
      Returns-bind _ _ (Returns-lift_ok (validate_exclusive c.new.cron_expression c.new.rrule))
        λ _ exclusive.
          Returns-const {C = validate_exclusive c.new.cron_expression c.new.rrule ≡ ok tt} _
            exclusive

  checked_change-Returns :
      (old : Task) (r : TaskUpdateRequest)
      → IsOffset old.pre_remind_before_seconds
      → Returns (checked_change e old r) (λ c. IsStorable c.new)
  unfolding checked_change
  checked_change-Returns old r h =
      Returns-bind _ _ (Returns-lift_ok (apply_request old r)) λ new applied.
        Returns-bind _ _ (check_change-Returns (record { old = old; new = new; request = r }))
          λ _ exclusive. Returns-pure _ (exclusive, apply_request-IsOffset old new r h applied)

  update_found-Returns :
      (old : Task) (r : TaskUpdateRequest)
      → IsOffset old.pre_remind_before_seconds
      → Returns (update_found e r old) IsStorable
  unfolding update_found after_update
  update_found-Returns old r h = Returns-bind _ _ (checked_change-Returns old r h) λ c hc.
      Returns-bind _ _ (store_change-Returns c hc) λ t ht. Returns-after _ _ λ _.
        Returns-after _ _ λ _. Returns-after _ _ λ _. Returns-after _ _ (λ _. Returns-pure t ht)

-- The task that UpdateTask returns, if the row it found had no offset or one from one second to 30
-- days, has at most one recurrence rule and again no offset or one in these bounds.
pub update_task-IsStorable :
    (e : Env) (id : ℕ) (r : TaskUpdateRequest) (w : World) (old updated : Task)
    → (get_task e id w).0 ≡ ok old
    → IsOffset old.pre_remind_before_seconds
    → (update_task e id r w).0 ≡ ok updated
    → (validate_exclusive updated.cron_expression updated.rrule ≡ ok tt)
      × IsOffset updated.pre_remind_before_seconds
unfolding update_task
update_task-IsStorable e id r w old updated found h done =
    let run = run_after (get_task e id) (update_found e r) w old found in
    Returns-ok _ (update_found-Returns e old r h) (get_task e id w).1 updated (cc run)
