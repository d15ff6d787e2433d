-- ===== src/Service/Total.antt =====
-- The best-effort parts of internal/service/task_service.go: history, activity, attachments.
use goreminder.Prelude.{ℕ, zero, suc, List, ltb, arith}
use goreminder.Text.{Text}
use goreminder.Errors.{Outcome, ok, err, panicked}
use goreminder.Service.World.{
  Env, TaskHistory, M, pure, attempt, best_effort, outside, modify, ◌>>=◌,
}
use goreminder.Service.World.Ensures.{Total, Total-pure, Total-if, Total-bind}
use goreminder.Service.Repository.{create_task_history}
use goreminder.Service.Publish.{touch, touch_user_activity, notify_calendar_export}
use goreminder.Service.Effects.{
  record_history, purge_call, retry, purge_attempts, purge_attachments,
}

module _ (e : Env) where
  pub record_history-Total : (h : TaskHistory) → Total (record_history e h)
  unfolding record_history best_effort create_task_history ◌>>=◌ outside modify
  record_history-Total h = record { at = λ w. ground arith }

  best_effort-touch-Total : (id : ℕ) → Total (best_effort (touch e id))
  unfolding best_effort touch ◌>>=◌ outside modify
  best_effort-touch-Total id = record { at = λ w. ground arith }

  pub touch_user_activity-Total : (id : ℕ) → Total (touch_user_activity e id)
  unfolding touch_user_activity
  touch_user_activity-Total id =
      Total-if (ltb 0 id) _ _ (best_effort-touch-Total id) (Total-pure tt)

  attempt_purge-Total : (id : ℕ) (ids : List ℕ) → Total (attempt (purge_call e id ids))
  unfolding attempt purge_call ◌>>=◌ outside modify
  attempt_purge-Total id ids = record { at = λ w. ground arith }

  retry-Total : (r : Outcome (Unit {0})) (m : M (Unit {0})) → Total m → Total (retry e r m)
  unfolding retry
  retry-Total (ok a) m t = Total-pure tt
  retry-Total (err x) m t = t
  retry-Total panicked m t = Total-pure tt

  purge_attempts-Total : (n id : ℕ) (ids : List ℕ) → Total (purge_attempts e n id ids)
  unfolding purge_attempts
  purge_attempts-Total zero id ids = Total-pure tt
  purge_attempts-Total (suc n) id ids =
      Total-bind _ _ (attempt_purge-Total id ids)
        (λ r. retry-Total r _ (purge_attempts-Total n id ids))

  pub purge_attachments-Total : (id : ℕ) (ids : List ℕ) → Total (purge_attachments e id ids)
  unfolding purge_attachments
  purge_attachments-Total id ids =
      Total-if e.has_attachments _ _ (purge_attempts-Total 3 id ids) (Total-pure tt)

  pub notify_calendar_export-Total :
      (id : ℕ) (action : Text) → Total (notify_calendar_export e id action)
  unfolding notify_calendar_export modify pure
  notify_calendar_export-Total id action = record { at = λ w. ground arith }
