-- ===== src/Service/Frame.antt =====
-- What the methods of the task service leave alone: rules for each statement, lookup and message.
pub mod Checks
use goreminder.Prelude.{ℕ, zero, suc, List, Option, none, some, ltb}
use goreminder.Text.{Text}
use goreminder.Errors.{Outcome, ok, err, panicked, not_found, unprocessable_entity}
use goreminder.Models.{Task, MessengerRelatedUser}
use goreminder.Queue.{TaskEvent, TaskMessage, to_task_message}
use goreminder.Service.World.{
  Env, World, TaskHistory, TxWrite, update, delete, delete_children, M, tick,
}
use goreminder.Service.World.Keeps.{
  Keeps, keeps_rules, Keeps-pure, Keeps-raise, Keeps-modify, Keeps-attempt, Keeps-map_err,
  Keeps-best_effort, Keeps-if, Keeps-then, Keeps-bind, Keeps-outside, Keeps-time_now,
}
use goreminder.Service.Repository.{
  get_task, get_task_any_status, get_child_tasks, tx_write, update_task_tx, delete_task_tx,
  delete_child_tasks_tx, create_task_history, or_not_found,
}
use goreminder.Service.Repository.Transaction.{SameTasks}
use goreminder.Service.Publish.{
  or_row_not_found, get_messenger_related_user, get_messenger_by_id, messenger_name_of,
  messenger_name_from_related_user, get_messenger_name, publish, publish_task_event,
  require_related, build_schedule_task_event, build_delete_task_event, touch, touch_user_activity,
  notify_calendar_export,
}
use goreminder.Service.Effects.{
  record_history, publish_child_to, publish_new_child, purge_call, retry, purge_attempts,
  purge_attachments, purge_attachments_after_done,
}

or_not_found-Keeps : {P : World → Type 0} (o : Option Task) → Keeps P (or_not_found o)
unfolding or_not_found
or_not_found-Keeps none = Keeps-raise not_found
or_not_found-Keeps (some t) = Keeps-pure t

module _ (e : Env) {P : World → Type 0} (ticks : (w : World) → P w → P (tick w)) where
  pub get_task-Keeps : (id : ℕ) → Keeps P (get_task e id)
  unfolding get_task
  get_task-Keeps id =
      Keeps-then _ _ (Keeps-outside e ticks) (search (keeps_rules, or_not_found-Keeps))

  pub get_task_any_status-Keeps : (id : ℕ) → Keeps P (get_task_any_status e id)
  unfolding get_task_any_status
  get_task_any_status-Keeps id =
      Keeps-then _ _ (Keeps-outside e ticks) (search (keeps_rules, or_not_found-Keeps))

  pub get_child_tasks-Keeps : (id : ℕ) → Keeps P (get_child_tasks e id)
  unfolding get_child_tasks
  get_child_tasks-Keeps id = search (keeps_rules, Keeps-outside e ticks)

  found-Keeps : {A : Type 0} (o : Option A) → Keeps P (or_row_not_found o)
  unfolding or_row_not_found
  found-Keeps none = Keeps-raise not_found
  found-Keeps (some a) = Keeps-pure a

  pub get_messenger_related_user-Keeps : (id : ℕ) → Keeps P (get_messenger_related_user e id)
  unfolding get_messenger_related_user
  get_messenger_related_user-Keeps id = Keeps-then _ _ (Keeps-outside e ticks) (found-Keeps _)

  get_messenger_by_id-Keeps : (id : ℕ) → Keeps P (get_messenger_by_id e id)
  unfolding get_messenger_by_id
  get_messenger_by_id-Keeps id = Keeps-then _ _ (Keeps-outside e ticks) (found-Keeps _)

  messenger_name_of-Keeps : (id : Option ℕ) → Keeps P (messenger_name_of e id)
  unfolding messenger_name_of
  messenger_name_of-Keeps none = Keeps-raise unprocessable_entity
  messenger_name_of-Keeps (some id) = Keeps-map_err _ _ (get_messenger_by_id-Keeps id)

  pub messenger_name-Keeps :
      (r : MessengerRelatedUser) → Keeps P (messenger_name_from_related_user e r)
  unfolding messenger_name_from_related_user
  messenger_name-Keeps r = messenger_name_of-Keeps r.messenger_id

  pub get_messenger_name-Keeps : (id : ℕ) → Keeps P (get_messenger_name e id)
  unfolding get_messenger_name
  get_messenger_name-Keeps id =
      Keeps-bind _ _ (Keeps-map_err _ _ (get_messenger_related_user-Keeps id)) messenger_name-Keeps

  pub require_related-Keeps : (o : Option ℕ) → Keeps P (require_related e o)
  unfolding require_related
  require_related-Keeps none = Keeps-raise unprocessable_entity
  require_related-Keeps (some id) = Keeps-pure id

  pub build_delete_task_event-Keeps : (t : Task) → Keeps P (build_delete_task_event e t)
  unfolding build_delete_task_event
  build_delete_task_event-Keeps t =
      Keeps-bind _ _ (require_related-Keeps _)
        λ id. Keeps-bind _ _ (get_messenger_name-Keeps id) (λ name. Keeps-pure _)

  pub build_schedule_task_event-Keeps : (t : Task) → Keeps P (build_schedule_task_event e t)
  unfolding build_schedule_task_event
  build_schedule_task_event-Keeps t = Keeps-bind _ _ (require_related-Keeps _) λ id.
      Keeps-bind _ _ (Keeps-map_err _ _ (get_messenger_related_user-Keeps id))
        λ r. Keeps-bind _ _ (messenger_name-Keeps r) (λ name. Keeps-pure _)

-- P does not look at what a statement outside the table of tasks changes.
pub record Blind (P : World → Type 0) : Type 0 where
  pub ticks : (w : World) → P w → P (tick w)
  pub queues : (m : List TaskMessage) (w : World) → P w → P (record w { queue = m })
  pub histories : (h : List TaskHistory) (w : World) → P w → P (record w { history = h })
  pub exported : (x : List (ℕ × Text)) (w : World) → P w → P (record w { exports = x })
  pub active : (x : List ℕ) (w : World) → P w → P (record w { activity = x })
  pub purged : (x : List (ℕ × List ℕ)) (w : World) → P w → P (record w { purges = x })

module _ (e : Env) {P : World → Type 0} (b : Blind P) where
  create_task_history-Keeps : (h : TaskHistory) → Keeps P (create_task_history e h)
  unfolding create_task_history
  create_task_history-Keeps h =
      Keeps-then _ _ (Keeps-outside e b.ticks) (Keeps-modify _ (λ w p. b.histories _ w p))

  pub record_history-Keeps : (h : TaskHistory) → Keeps P (record_history e h)
  unfolding record_history
  record_history-Keeps h = Keeps-best_effort _ (create_task_history-Keeps h)

  pub publish-Keeps : (m : TaskMessage) → Keeps P (publish e m)
  unfolding publish
  publish-Keeps m =
      Keeps-then _ _ (Keeps-outside e b.ticks) (Keeps-modify _ (λ w p. b.queues _ w p))

  pub publish_task_event-Keeps : (t : Task) (ev : TaskEvent) → Keeps P (publish_task_event e t ev)
  unfolding publish_task_event
  publish_task_event-Keeps t ev =
      Keeps-if _ _ _ (λ _. Keeps-pure tt) (λ _. publish-Keeps (to_task_message ev))

  touch-Keeps : (id : ℕ) → Keeps P (touch e id)
  unfolding touch
  touch-Keeps id = Keeps-then _ _ (Keeps-outside e b.ticks) (Keeps-modify _ (λ w p. b.active _ w p))

  pub touch_user_activity-Keeps : (id : ℕ) → Keeps P (touch_user_activity e id)
  unfolding touch_user_activity
  touch_user_activity-Keeps id =
      Keeps-if (ltb 0 id) _ _ (λ _. Keeps-best_effort _ (touch-Keeps id)) (λ _. Keeps-pure tt)

  pub notify_calendar_export-Keeps :
      (id : ℕ) (action : Text) → Keeps P (notify_calendar_export e id action)
  unfolding notify_calendar_export
  notify_calendar_export-Keeps id action =
      Keeps-if e.has_export_hook _ _ (λ _. Keeps-modify _ (λ w p. b.exported _ w p))
        (λ _. Keeps-pure tt)

  publish_child_to-Keeps : (o : Option ℕ) (c : Task) → Keeps P (publish_child_to e o c)
  unfolding publish_child_to
  publish_child_to-Keeps none c = Keeps-pure tt
  publish_child_to-Keeps (some id) c = Keeps-best_effort _ (
      Keeps-bind _ _ (Keeps-map_err _ _ (get_messenger_related_user-Keeps e b.ticks id)) λ r.
        Keeps-bind _ _ (messenger_name-Keeps e b.ticks r) (λ name. publish_task_event-Keeps c _))

  pub publish_new_child-Keeps : (c : Task) → Keeps P (publish_new_child e c)
  unfolding publish_new_child
  publish_new_child-Keeps c = publish_child_to-Keeps c.messenger_related_user_id c

  purge_call-Keeps : (id : ℕ) (ids : List ℕ) → Keeps P (purge_call e id ids)
  unfolding purge_call
  purge_call-Keeps id ids =
      Keeps-then _ _ (Keeps-outside e b.ticks) (Keeps-modify _ (λ w p. b.purged _ w p))

  retry-Keeps : (r : Outcome (Unit {0})) (m : M (Unit {0})) → Keeps P m → Keeps P (retry e r m)
  unfolding retry
  retry-Keeps (ok a) m k = Keeps-pure tt
  retry-Keeps (err x) m k = k
  retry-Keeps panicked m k = Keeps-pure tt

  purge_attempts-Keeps : (n id : ℕ) (ids : List ℕ) → Keeps P (purge_attempts e n id ids)
  unfolding purge_attempts
  purge_attempts-Keeps zero id ids = Keeps-pure tt
  purge_attempts-Keeps (suc n) id ids =
      Keeps-bind _ _ (Keeps-attempt _ (purge_call-Keeps id ids))
        λ r. retry-Keeps r _ (purge_attempts-Keeps n id ids)

  pub purge_attachments-Keeps : (id : ℕ) (ids : List ℕ) → Keeps P (purge_attachments e id ids)
  unfolding purge_attachments
  purge_attachments-Keeps id ids =
      Keeps-if _ _ _ (λ _. purge_attempts-Keeps 3 id ids) (λ _. Keeps-pure tt)

  pub purge_attachments_after_done-Keeps : (id : ℕ) → Keeps P (purge_attachments_after_done e id)
  unfolding purge_attachments_after_done
  purge_attachments_after_done-Keeps id =
      Keeps-bind _ _ (Keeps-attempt _ (get_child_tasks-Keeps e b.ticks id))
        λ r. purge_attachments-Keeps id _

-- Methods that only read, publish and log leave the committed rows as they are.
pub SameTasks-Blind : (rows : List Task) → Blind (SameTasks rows)
SameTasks-Blind rows = record {
  ticks = λ w h. h;
  queues = λ m w h. h;
  histories = λ m w h. h;
  exported = λ m w h. h;
  active = λ m w h. h;
  purged = λ m w h. h;
}

module _ (e : Env) (rows : List Task) where
  tx_write-SameTasks : (x : TxWrite) → Keeps (SameTasks rows) (tx_write e x)
  unfolding tx_write
  tx_write-SameTasks x = Keeps-then _ _ (Keeps-outside e (λ w h. h)) (Keeps-modify _ (λ w p. p))

  pub update_task_tx-SameTasks : (t : Task) → Keeps (SameTasks rows) (update_task_tx e t)
  unfolding update_task_tx
  update_task_tx-SameTasks t = tx_write-SameTasks (update t)

  pub delete_task_tx-SameTasks : (id : ℕ) → Keeps (SameTasks rows) (delete_task_tx e id)
  unfolding delete_task_tx
  delete_task_tx-SameTasks id =
      Keeps-bind _ _ (Keeps-time_now e (λ w h. h)) (λ at. tx_write-SameTasks (delete id at))

  pub delete_child_tasks_tx-SameTasks :
      (id : ℕ) → Keeps (SameTasks rows) (delete_child_tasks_tx e id)
  unfolding delete_child_tasks_tx
  delete_child_tasks_tx-SameTasks id =
      Keeps-bind _ _ (Keeps-time_now e (λ w h. h))
        (λ at. tx_write-SameTasks (delete_children id at))
