-- ===== src/Sync/Import.antt =====
-- internal/service/calendar_sync_service.go: the import of events. The scheduler for imported tasks
-- is the task service.
pub mod Merge
use goreminder.Prelude.{
  ℕ, ◌+◌, ◌-◌, ◌*◌, zero, suc, Bool, true, false, not, ◌&&◌, ◌||◌, Option, none, some, is_some,
  List, [], ◌∷◌, ◌++◌, null, ltb, ◌==◌, if◌then◌else◌,
}
use goreminder.Prelude.Int.{ℤ, pos, negsuc}
use goreminder.Text.{Text, codes, text_eq, to_lower}
use goreminder.Errors.{Err, Outcome, ok, err, panicked, not_found, other}
use goreminder.Clock.{Time}
use goreminder.Models.{
  Task, status_scheduled, status_rescheduled, status_postponed, status_done, status_deleted,
}
use goreminder.Calendar.Backoff.{binding_sync_backoff}
use goreminder.Calendar.Scope.{
  DeletePolicy, Direction, direction_import, direction_export, direction_both, other_direction,
  Origin, imported, exported, other_origin, apply_delete_policy, keep_exported_reminder_open,
  apply_imported_delivery_chat,
}
use goreminder.Service.World.{
  Env, M, Value, text, ◌>>=◌ as ◌>=>◌, pure as done_with, best_effort as log_error,
}
use goreminder.Service.Repository.{
  has_status, insert_task, get_task_any_status, update_task, delete_task,
}
use goreminder.Service.Effects.{history_of, record_history}
use goreminder.Service.Publish.{
  publish_schedule_task_event, build_delete_task_event, publish_task_event,
}
use goreminder.Sync.World.{
  TaskSyncLink, CalendarBinding, binding_active, binding_error, ListAnswer, page, invalid_token,
  list_failed, RemoteCall, list_events, SyncEnv, Sync, pure, lift, raise, service, attempt,
  best_effort, modify, call, time_now, ◌>>=◌, ◌>>◌,
}
use goreminder.Sync.Event.{Event, event_duration_seconds, task_id_from_extended_properties}
use goreminder.Sync.Fields.{
  map_event_to_task_fields, recurrence_ptrs_equal, non_status_changed,
  calendar_imported_fields_changed, source_entry, calendar_task_history_map,
}
use goreminder.Sync.Rows.{
  google_calendar, create_link, get_link_by_event, get_link_by_task_id, update_link, delete_link,
  get_binding, update_binding, soft_delete_binding, clear_sync_token, list_links_by_binding,
}
use goreminder.Sync.Client.{client_for_account_id}
use goreminder.Sync.Outbox.{optional_link}

abbrev pub was_scheduled : Task → Bool
was_scheduled t =
    has_status t status_scheduled
    || has_status t status_rescheduled
    || has_status t status_postponed

abbrev schedule_changed : Task → Task → Bool
schedule_changed task fields =
    not (task.start_date == fields.start_date)
    || not (recurrence_ptrs_equal task.rrule fields.rrule)
    || not (text_eq task.title fields.title)
    || not (text_eq task.description fields.description)

abbrev imported_finish : Task → Task → Option Time
imported_finish fields task =
    if has_status fields status_done
    then fields.finish_date
    else if has_status fields status_scheduled
    then none
    else task.finish_date

-- the texts and the group follow the event
abbrev with_texts : Task → Task → Task
with_texts fields task = record task {
  title = fields.title;
  description = fields.description;
  group_id = fields.group_id;
}

abbrev with_schedule : Task → Task → Task
with_schedule fields task = record task {
  start_date = fields.start_date;
  rrule = fields.rrule;
  status = fields.status;
  finish_date = imported_finish fields task;
}

-- the row after the import; an exported reminder that fired stays open
unfoldable pub merged : Bool → Task → Task → Task
merged keep_open fields task =
    let texts =
      apply_imported_delivery_chat (with_texts fields task) fields.messenger_related_user_id in
    if keep_open then texts else with_schedule fields texts

module _ (e : SyncEnv) where
  -- PublishImportedTaskSchedule; its error is logged
  unfoldable pub publish_imported_task_schedule : Task → M (Unit {0})
  publish_imported_task_schedule task =
      if is_some task.messenger_related_user_id
      then (publish_schedule_task_event e.base false task false >=> λ sent. done_with tt)
      else done_with tt

  -- PublishImportedTaskDelete
  unfoldable pub publish_imported_task_delete : Task → M (Unit {0})
  publish_imported_task_delete task =
      if is_some task.messenger_related_user_id
      then (build_delete_task_event e.base task >=> publish_task_event e.base task)
      else done_with tt

  -- recordImportedTaskHistory; both maps hold their source
  unfoldable pub record_imported_task_history :
      Text → Task → List (Text × Value) → List (Text × Value) → Sync (Unit {0})
  record_imported_task_history action task old new =
      service (record_history e.base (history_of task action old new))

  unfoldable pub apply_imported_delete_policy : DeletePolicy → Task → Sync (Unit {0})
  apply_imported_delete_policy policy task = do
    let (soft_delete, mute) = apply_delete_policy policy
    (if soft_delete
        then (do
          best_effort (service (publish_imported_task_delete task))
          service (delete_task e.base task.id)
          record_imported_task_history (codes "deleted") task (calendar_task_history_map task)
              ((codes "status", text status_deleted) ∷ source_entry ∷ []))
        else if mute && not task.muted
        then (do
          best_effort (service (publish_imported_task_delete task))
          service (update_task e.base (record task { muted = true }))
          record_imported_task_history (codes "updated") task (calendar_task_history_map task)
              (calendar_task_history_map (record task { muted = true })))
        else pure tt)

  unfoldable pub cancel_found : CalendarBinding → TaskSyncLink → Outcome Task → Sync (Unit {0})
  cancel_found b link (ok task) = apply_imported_delete_policy b.delete_policy task
  cancel_found b link (err not_found) = delete_link e link.id
  cancel_found b link (err x) = raise x
  cancel_found b link panicked = lift panicked

  -- applyCancelledEvent
  unfoldable pub apply_cancelled_event : CalendarBinding → TaskSyncLink → Sync (Unit {0})
  apply_cancelled_event b link = do
    found ← attempt (service (get_task_any_status e.base link.task_id))
    cancel_found b link found

  unfoldable pub cancel_optional : CalendarBinding → Option TaskSyncLink → Sync (Unit {0})
  cancel_optional b none = pure tt
  cancel_optional b (some link) = apply_cancelled_event b link

  abbrev event_link : CalendarBinding → Event → ℕ → Origin → Time → TaskSyncLink
  event_link b ev task_id origin now = record {
    id = 0;
    task_id = task_id;
    provider = google_calendar;
    google_calendar_id = b.google_calendar_id;
    google_event_id = ev.id;
    etag = some ev.etag;
    google_updated_at = some ev.updated;
    origin = origin;
    sync_enabled = true;
    export_opt_in = false;
    calendar_binding_id = some b.id;
    duration_seconds = event_duration_seconds e.parse_date ev;
    last_synced_at = some now;
    last_error = none;
  }

  abbrev seen_link : CalendarBinding → Event → Time → TaskSyncLink → TaskSyncLink
  seen_link b ev now link = record link {
    etag = some ev.etag;
    google_updated_at = some ev.updated;
    duration_seconds = event_duration_seconds e.parse_date ev;
    last_synced_at = some now;
    last_error = none;
    calendar_binding_id = some b.id;
  }

  -- an import creates the task, with its history
  unfoldable pub create_imported : Task → Sync Task
  create_imported fields = do
    id ← service (insert_task e.base fields)
    record_imported_task_history (codes "created") (record fields { id = id }) []
        (calendar_task_history_map (record fields { id = id }))
    pure (record fields { id = id })

  unfoldable pub import_new : CalendarBinding → Event → Task → Time → Sync (Unit {0})
  import_new b ev fields now = do
    task ← create_imported fields
    create_link e (event_link b ev task.id imported now)
    best_effort (service (publish_imported_task_schedule task))

  unfoldable pub record_merge : Task → Task → Sync (Unit {0})
  record_merge old new = do
    (if text_eq old.status new.status
        then pure tt
        else record_imported_task_history (codes "status_changed") new
            ((codes "status", text old.status) ∷ source_entry ∷ [])
            ((codes "status", text new.status) ∷ source_entry ∷ []))
    (if non_status_changed old new || text_eq old.status new.status
        then record_imported_task_history (codes "updated") new (calendar_task_history_map old)
            (calendar_task_history_map new)
        else pure tt)

  unfoldable pub store_merge : Task → Task → Sync (Unit {0})
  store_merge old new =
      if calendar_imported_fields_changed old new
      then (do service (update_task e.base new); record_merge old new)
      else pure tt

  unfoldable pub publish_merge : Bool → Task → Task → Task → Sync (Unit {0})
  publish_merge keep_open fields old new =
      if keep_open || not (is_some new.messenger_related_user_id)
      then pure tt
      else if has_status fields status_scheduled
          && (schedule_changed old fields || not (was_scheduled old))
      then best_effort (service (publish_imported_task_schedule new))
      else if was_scheduled old && not (has_status fields status_scheduled)
      then best_effort (service (publish_imported_task_delete new))
      else pure tt

  -- the link that is then written
  unfoldable pub merge_found : TaskSyncLink → Task → Outcome Task → Sync TaskSyncLink
  merge_found link fields (err not_found) = do
    task ← create_imported fields
    best_effort (service (publish_imported_task_schedule task))
    pure (record link { task_id = task.id })
  merge_found link fields (err x) = raise x
  merge_found link fields panicked = lift panicked
  merge_found link fields (ok task) = do
    let keep_open = keep_exported_reminder_open link.origin fields.status
    let new = merged keep_open fields task
    store_merge task new
    publish_merge keep_open fields task new
    pure link

  unfoldable pub import_linked :
      CalendarBinding → Event → Task → Time → TaskSyncLink → Sync (Unit {0})
  import_linked b ev fields now link = do
    found ← attempt (service (get_task_any_status e.base link.task_id))
    merged_link ← merge_found link fields found
    update_link e (seen_link b ev now merged_link)

  unfoldable pub import_fields :
      CalendarBinding → Event → Task → Time → Option TaskSyncLink → Sync (Unit {0})
  import_fields b ev fields now none = import_new b ev fields now
  import_fields b ev fields now (some link) = import_linked b ev fields now link

  unfoldable pub import_optional : CalendarBinding → Event → Option TaskSyncLink → Sync (Unit {0})
  import_optional b ev link = do
    clock ← time_now e
    fields ←
        lift (map_event_to_task_fields e b.user_id b.group_id b.messenger_related_user_id ev clock)
    now ← time_now e
    import_fields b ev fields now link

  -- an event that this application exported: its link is looked up before a task is created
  unfoldable pub import_own : CalendarBinding → Event → ℕ → Outcome TaskSyncLink → Sync (Unit {0})
  import_own b ev task_id (ok link) = import_optional b ev (some link)
  import_own b ev task_id (err not_found) = do
    now ← time_now e
    create_link e (event_link b ev task_id exported now)
    pure tt
  import_own b ev task_id (err x) = raise x
  import_own b ev task_id panicked = lift panicked

  unfoldable pub import_unlinked : CalendarBinding → Event → Option ℤ → Sync (Unit {0})
  import_unlinked b ev none = import_optional b ev none
  import_unlinked b ev (some (negsuc n)) = import_optional b ev none
  import_unlinked b ev (some (pos id)) =
      if id == 0
      then import_optional b ev none
      else do found ← attempt (get_link_by_task_id e id); import_own b ev id found

  unfoldable pub import_live : CalendarBinding → Event → Option TaskSyncLink → Sync (Unit {0})
  import_live b ev none =
      import_unlinked b ev (task_id_from_extended_properties ev.task_id_property)
  import_live b ev (some link) = import_optional b ev (some link)

  -- upsertImportedEvent
  unfoldable pub upsert_imported_event : CalendarBinding → Event → Sync (Unit {0})
  upsert_imported_event b ev = do
    found ← attempt (get_link_by_event e google_calendar b.google_calendar_id ev.id)
    link ← optional_link e found
    (if text_eq (to_lower ev.status) (codes "cancelled")
        then cancel_optional b link
        else import_live b ev link)
