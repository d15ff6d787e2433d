-- ===== src/Sync/Outbox.antt =====
-- internal/service/calendar_sync_service.go: the outbox is worked off.
pub mod Frame
pub mod Attempts
pub mod Drained
pub mod Lifecycle
use goreminder.Prelude.{
  ℕ, ◌+◌, Bool, true, false, not, ◌&&◌, ◌||◌, Option, none, some, is_some, List, [], ◌∷◌, null, leb,
  ltb, ◌==◌, if◌then◌else◌,
}
use goreminder.Prelude.Int.{ℤ, pos}
use goreminder.Text.{Text, codes, text_eq, has_prefix, contains}
use goreminder.Errors.{Err, Outcome, ok, err, panicked, not_found, other}
use goreminder.Clock.{Time}
use goreminder.Models.{Task}
use goreminder.Calendar.Backoff.{outbox_backoff}
use goreminder.Calendar.Scope.{exported, binding_allows_task_export, should_export_task}
use goreminder.Service.Repository.{get_task_any_status}
use goreminder.Sync.Event.{Event, event_duration_seconds, build_export_event}
use goreminder.Sync.World.{
  TaskSyncLink, CalendarBinding, OutboxKind, export_upsert, export_delete, other_kind,
  OutboxPayload, SyncOutbox, SyncEnv, Sync, pure, lift, raise, service, attempt, best_effort,
  time_now, ◌>>=◌, ◌>>◌,
}
use goreminder.Sync.Rows.{
  google_calendar, create_link, get_link_by_task_id, update_link, delete_link, get_binding,
  claim_due, count_pending, mark_done, mark_retry, mark_failed,
}
use goreminder.Sync.Client.{client_for_account_id, remote_create, remote_patch, remote_delete}

abbrev pub max_outbox_attempts : ℕ
max_outbox_attempts = 8

-- a link that says which event of the calendar is the task's
abbrev pub is_placed : CalendarBinding → TaskSyncLink → Bool
is_placed b link =
    not (null link.google_event_id)
    && not (has_prefix link.google_event_id (codes "pending-"))
    && text_eq link.google_calendar_id b.google_calendar_id

abbrev or_else : {A : Type 0} → Option A → Option A → Option A
or_else none old = old
or_else (some a) old = some a

abbrev pub is_missing_text : Text → Bool
is_missing_text s = contains s (codes "404") || contains s (codes "Not Found")

module _ (e : SyncEnv) where
  -- the link after PATCH; a duration that is unknown stays
  abbrev pub patched_link : TaskSyncLink → Event → Time → TaskSyncLink
  patched_link link ev now = record link {
    etag = some ev.etag;
    google_updated_at = some ev.updated;
    last_synced_at = some now;
    last_error = none;
    duration_seconds = or_else (event_duration_seconds e.parse_date ev) link.duration_seconds;
  }

  -- the link after INSERT
  abbrev pub placed_link : CalendarBinding → TaskSyncLink → Event → Time → TaskSyncLink
  placed_link b link ev now = record link {
    google_event_id = ev.id;
    google_calendar_id = b.google_calendar_id;
    etag = some ev.etag;
    google_updated_at = some ev.updated;
    origin = exported;
    sync_enabled = true;
    calendar_binding_id = some b.id;
    duration_seconds = event_duration_seconds e.parse_date ev;
    last_synced_at = some now;
    last_error = none;
  }

  abbrev pub new_link : ℕ → TaskSyncLink
  new_link task_id = record {
    id = 0;
    task_id = task_id;
    provider = google_calendar;
    google_calendar_id = [];
    google_event_id = [];
    etag = none;
    google_updated_at = none;
    origin = exported;
    sync_enabled = true;
    export_opt_in = false;
    calendar_binding_id = none;
    duration_seconds = none;
    last_synced_at = none;
    last_error = none;
  }

  unfoldable pub patch_placed : CalendarBinding → TaskSyncLink → Event → Time → Sync (Unit {0})
  patch_placed b link ev now = do
    updated ← remote_patch e b.google_calendar_id link.google_event_id ev
    update_link e (patched_link link updated now)

  unfoldable pub push :
      Task → CalendarBinding → Option TaskSyncLink → Event → Time → Sync (Unit {0})
  push task b none ev now = do
    created ← remote_create e b.google_calendar_id ev
    create_link e (placed_link b (new_link task.id) created now)
    pure tt
  push task b (some link) ev now = if is_placed b link then patch_placed b link ev now else do
    created ← remote_create e b.google_calendar_id ev
    update_link e (placed_link b link created now)

  -- a link that is missing is none, another error is returned
  unfoldable pub optional_link : Outcome TaskSyncLink → Sync (Option TaskSyncLink)
  optional_link (ok link) = pure (some link)
  optional_link (err not_found) = pure none
  optional_link (err x) = raise x
  optional_link panicked = lift panicked

  abbrev pub duration_of : Option TaskSyncLink → Option ℤ
  duration_of none = none
  duration_of (some link) = link.duration_seconds

  unfoldable pub push_live : Task → CalendarBinding → Sync (Unit {0})
  push_live task b = do
    client_for_account_id e b.google_account_id
    found ← attempt (get_link_by_task_id e task.id)
    link ← optional_link found
    now ← time_now e
    push task b link
        (build_export_event e.base.lib task e.default_event_duration_minutes (duration_of link)) now

  -- exportUpsert
  unfoldable pub run_upsert : OutboxPayload → Sync (Unit {0})
  run_upsert payload = do
    task ← service (get_task_any_status e.base payload.task_id)
    (if not (should_export_task (some task)) then pure tt else do
      b ← get_binding e payload.binding_id
      (if not (binding_allows_task_export b.direction) then pure tt else push_live task b))

  abbrev pub account_of : Outcome CalendarBinding → ℕ
  account_of (ok b) = b.google_account_id
  account_of (err x) = 0
  account_of panicked = 0

  -- the account of a binding, 0 where there is none
  unfoldable pub account_of_binding : Option ℕ → Sync ℕ
  account_of_binding none = pure 0
  account_of_binding (some id) = do found ← attempt (get_binding e id); pure (account_of found)

  unfoldable pub account_of_payload : OutboxPayload → ℕ → Sync ℕ
  account_of_payload payload account =
      if account == 0 && ltb 0 payload.binding_id
      then account_of_binding (some payload.binding_id)
      else pure account

  -- an event that is gone already is a success
  unfoldable pub delete_answer : Option Text → Sync (Unit {0})
  delete_answer none = pure tt
  delete_answer (some s) = if is_missing_text s then pure tt else raise other

  unfoldable pub delete_linked : OutboxPayload → TaskSyncLink → Sync (Unit {0})
  delete_linked payload link = do
    own ← account_of_binding link.calendar_binding_id
    account ← account_of_payload payload own
    (if account == 0 then best_effort (delete_link e link.id) else do
      client_for_account_id e account
      answer ← remote_delete e link.google_calendar_id link.google_event_id
      delete_answer answer
      delete_link e link.id)

  unfoldable pub delete_optional : OutboxPayload → Option TaskSyncLink → Sync (Unit {0})
  delete_optional payload none = pure tt
  delete_optional payload (some link) = delete_linked payload link

  -- exportDelete
  unfoldable pub run_delete : OutboxPayload → Sync (Unit {0})
  run_delete payload = if leb payload.task_id 0 then pure tt else do
    found ← attempt (get_link_by_task_id e payload.task_id)
    link ← optional_link found
    delete_optional payload link

  unfoldable pub run_kind : OutboxKind → OutboxPayload → Sync (Unit {0})
  run_kind export_upsert payload = run_upsert payload
  run_kind export_delete payload = run_delete payload
  run_kind other_kind payload = raise other

  -- processOutboxItem: a payload that does not decode is an error
  unfoldable pub process_payload : OutboxKind → Option OutboxPayload → Sync (Unit {0})
  process_payload kind none = raise other
  process_payload kind (some payload) = run_kind kind payload

  unfoldable pub process_outbox_item : SyncOutbox → Sync (Unit {0})
  process_outbox_item item = process_payload item.kind item.payload

  -- what the loop of ProcessOutbox does with the result for one item
  unfoldable pub settle_item : SyncOutbox → Outcome (Unit {0}) → Sync (Unit {0})
  settle_item item (ok _) = best_effort (mark_done e item.id)
  settle_item item panicked = lift panicked
  settle_item item (err x) =
      if leb max_outbox_attempts (item.attempts + 1)
      then best_effort (mark_failed e item.id x)
      else do
        now ← time_now e
        best_effort (
            mark_retry e item.id (item.attempts + 1)
              (now + outbox_backoff (pos (item.attempts + 1))) x)

  unfoldable pub process_items : List SyncOutbox → Sync (Unit {0})
  process_items [] = pure tt
  process_items (item ∷ items) = do
    result ← attempt (process_outbox_item item)
    settle_item item result
    process_items items

  -- ProcessOutbox; the number of open items is only reported
  unfoldable pub process_outbox : Sync (Unit {0})
  process_outbox = do items ← claim_due e 50; best_effort (count_pending e); process_items items
