-- ===== src/Sync/Bindings.antt =====
-- internal/service/calendar_sync_service.go and calendar_sync_scheduler.go: a binding is
-- synchronised, marked and removed.
use goreminder.Prelude.{
  ℕ, ◌+◌, Bool, true, false, not, ◌&&◌, ◌||◌, Option, none, some, is_some, List, [], ◌∷◌, ◌++◌,
  null, ltb, leb, if◌then◌else◌,
}
use goreminder.Prelude.Int.{pos}
use goreminder.Text.{Text, text_eq}
use goreminder.Errors.{Err, Outcome, ok, err, panicked, not_found, other}
use goreminder.Clock.{Time}
use goreminder.Models.{Task}
use goreminder.Calendar.Backoff.{binding_sync_backoff}
use goreminder.Calendar.Scope.{
  Direction, direction_import, direction_export, direction_both, other_direction, Origin, imported,
  exported, other_origin,
}
use goreminder.Service.Repository.{get_task_any_status}
use goreminder.Sync.World.{
  TaskSyncLink, CalendarBinding, BindingStatus, binding_active, binding_error, binding_disconnected,
  ListAnswer, page, invalid_token, list_failed, list_events, SyncEnv, Sync, pure, lift, raise, gets,
  service, attempt, best_effort, modify, call, time_now, ◌>>=◌, ◌>>◌,
}
use goreminder.Sync.Event.{Event}
use goreminder.Sync.Rows.{
  select, get_binding, update_binding, soft_delete_binding, clear_sync_token, list_links_by_binding,
}
use goreminder.Sync.Client.{client_for_account_id}
use goreminder.Sync.Import.{upsert_imported_event, apply_imported_delete_policy}
use goreminder.Sync.Outbox.{process_outbox}

abbrev pub is_import : Direction → Bool
is_import direction_import = true
is_import direction_both = true
is_import direction_export = false
is_import other_direction = false

abbrev pub is_imported_origin : Origin → Bool
is_imported_origin imported = true
is_imported_origin exported = false
is_imported_origin other_origin = false

abbrev pub max_binding_sync_attempts : ℕ
max_binding_sync_attempts = 8

abbrev pub not_before : Option Time → Time → Bool
not_before none now = true
not_before (some at) now = leb at now

abbrev is_due_status : BindingStatus → CalendarBinding → Time → Bool
is_due_status binding_active b now = true
is_due_status binding_error b now =
    ltb b.sync_attempts max_binding_sync_attempts && not_before b.next_retry_at now
is_due_status binding_disconnected b now = false

-- active bindings, and those in error whose retry is due
abbrev pub is_due_binding : Time → CalendarBinding → Bool
is_due_binding now b =
    not (is_some b.deleted_at) && is_import b.direction && is_due_status b.status b now

abbrev pub same_summary : Option Text → Text → Bool
same_summary none s = false
same_summary (some t) s = text_eq t s

abbrev pub in_error : Err → Time → CalendarBinding → CalendarBinding
in_error x now b = record b {
  last_error = some x;
  status = binding_error;
  sync_attempts = b.sync_attempts + 1;
  next_retry_at = some (now + binding_sync_backoff (pos (b.sync_attempts + 1)));
}

abbrev pub in_sync : Time → CalendarBinding → CalendarBinding
in_sync now b = record b {
  last_synced_at = some now;
  last_error = none;
  status = binding_active;
  sync_attempts = 0;
  next_retry_at = none;
}

abbrev next_token : Text → CalendarBinding → CalendarBinding
next_token token b = if null token then b else record b { sync_token = some token }

module _ (e : SyncEnv) where
  unfoldable pub import_each : CalendarBinding → List Event → Sync (Unit {0})
  import_each b [] = pure tt
  import_each b (ev ∷ events) = do upsert_imported_event e b ev; import_each b events

  unfoldable pub ask : CalendarBinding → Text → Sync (Unit {0})
  ask b token = do
    call e
    modify (λ s. record s {
      remote = s.remote ++ list_events b.google_calendar_id b.sync_token token ∷ [];
    })

  -- goes on where a step of the import succeeded
  unfoldable pub after_step :
      CalendarBinding
      → Outcome (Unit {0})
      → Sync (CalendarBinding × Outcome (Unit {0}))
      → Sync (CalendarBinding × Outcome (Unit {0}))
  after_step b (ok _) m = m
  after_step b (err x) m = pure (b, err x)
  after_step b panicked m = lift panicked

  -- importEvents: the binding with its token, and the error. The answers that Google gives one after
  -- the other are an argument; a request without an answer fails.
  unfoldable pub import_events :
      CalendarBinding → Text → List ListAnswer → Sync (CalendarBinding × Outcome (Unit {0}))
  import_events b token [] = do
    asked ← attempt (ask b token)
    after_step b asked (pure (b, err other))
  import_events b token (list_failed ∷ answers) = do
    asked ← attempt (ask b token)
    after_step b asked (pure (b, err other))
  import_events b token (invalid_token ∷ answers) = do
    asked ← attempt (ask b token)
    after_step b asked (do
      best_effort (clear_sync_token e b.id)
      import_events (record b { sync_token = none }) [] answers)
  import_events b token (page events next_page next_sync ∷ answers) = do
    asked ← attempt (ask b token)
    after_step b asked (do
      stored ← attempt (import_each b events)
      after_step b stored (
          if null next_page
          then pure (next_token next_sync b, ok tt)
          else import_events b next_page answers))

  -- markBindingError
  unfoldable pub mark_binding_error : CalendarBinding → Err → Sync (Unit {0})
  mark_binding_error b x = do now ← time_now e; best_effort (update_binding e (in_error x now b))

  -- markBindingSynced
  unfoldable pub mark_binding_synced : CalendarBinding → Sync (Unit {0})
  mark_binding_synced b = do now ← time_now e; best_effort (update_binding e (in_sync now b))

  -- the summary that Google gives, unless it is empty or the same
  unfoldable pub refresh_summary : CalendarBinding → Option Text → Sync CalendarBinding
  refresh_summary b none = pure b
  refresh_summary b (some s) = if null s || same_summary b.calendar_summary s then pure b else do
    best_effort (update_binding e (record b { calendar_summary = some s }))
    pure (record b { calendar_summary = some s })

  unfoldable pub summary_of : Outcome ℕ → Option Text
  summary_of (ok n) = e.calendar_summary n
  summary_of (err x) = none
  summary_of panicked = none

  -- refreshBindingCalendarSummary
  unfoldable pub refresh_binding_calendar_summary : CalendarBinding → Sync CalendarBinding
  refresh_binding_calendar_summary b = do n ← attempt (call e); refresh_summary b (summary_of n)

  unfoldable pub finish_import : CalendarBinding → Outcome (Unit {0}) → Sync (Unit {0})
  finish_import b (ok _) = mark_binding_synced b
  finish_import b (err x) = do mark_binding_error b x; raise x
  finish_import b panicked = lift panicked

  unfoldable pub sync_with_client :
      List ListAnswer → CalendarBinding → Outcome (Unit {0}) → Sync (Unit {0})
  sync_with_client answers b panicked = lift panicked
  sync_with_client answers b (err x) = do
    (if is_import b.direction then mark_binding_error b x else pure tt)
    raise x
  sync_with_client answers b (ok _) = do
    named ← refresh_binding_calendar_summary b
    (if not (is_import named.direction)
        then pure tt
        else do (synced, result) ← import_events named [] answers; finish_import synced result)

  -- SyncBinding, with the answers that Google gives
  unfoldable pub sync_binding : List ListAnswer → ℕ → Sync (Unit {0})
  sync_binding answers id = do
    b ← get_binding e id
    client ← attempt (client_for_account_id e b.google_account_id)
    sync_with_client answers b client

  -- ListDueForSync
  unfoldable pub list_due_for_sync : Time → Sync (List CalendarBinding)
  list_due_for_sync now = do call e; gets (λ s. select (is_due_binding now) s.bindings)

  -- errors are logged, and the next binding is tried
  unfoldable pub sync_each : (ℕ → List ListAnswer) → List CalendarBinding → Sync (Unit {0})
  sync_each answers [] = pure tt
  sync_each answers (b ∷ bindings) = do
    best_effort (sync_binding (answers b.id) b.id)
    sync_each answers bindings

  unfoldable pub sync_due : (ℕ → List ListAnswer) → Outcome (List CalendarBinding) → Sync (Unit {0})
  sync_due answers (ok bindings) = sync_each answers bindings
  sync_due answers (err x) = pure tt
  sync_due answers panicked = lift panicked

  -- runOnce of the scheduler
  unfoldable pub run_once : (ℕ → List ListAnswer) → Sync (Unit {0})
  run_once answers = do
    now ← time_now e
    bindings ← attempt (list_due_for_sync now)
    sync_due answers bindings
    best_effort (process_outbox e)

  unfoldable pub apply_policy_to :
      CalendarBinding → Outcome Task → Sync (Unit {0}) → Sync (Unit {0})
  apply_policy_to b (ok task) rest = do apply_imported_delete_policy e b.delete_policy task; rest
  apply_policy_to b (err not_found) rest = rest
  apply_policy_to b (err x) rest = raise x
  apply_policy_to b panicked rest = lift panicked

  unfoldable pub apply_policy_each : CalendarBinding → List TaskSyncLink → Sync (Unit {0})
  apply_policy_each b [] = pure tt
  apply_policy_each b (link ∷ links) =
      if not (is_imported_origin link.origin) then apply_policy_each b links else do
        found ← attempt (service (get_task_any_status e.base link.task_id))
        apply_policy_to b found (apply_policy_each b links)

  -- DeleteBinding
  unfoldable pub delete_binding : ℕ → Sync (Unit {0})
  delete_binding id = do
    b ← get_binding e id
    links ← list_links_by_binding e id
    apply_policy_each b links
    soft_delete_binding e id
