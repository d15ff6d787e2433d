-- ===== src/Sync/Export.antt =====
-- internal/service/calendar_sync_service.go: what is queued for export.
pub mod Asked
use goreminder.Prelude.{
  ℕ, Bool, true, false, not, ◌&&◌, ◌||◌, Option, none, some, is_some, List, [], ◌∷◌, ◌++◌, any,
  null, ◌==◌, if◌then◌else◌,
}
use goreminder.Text.{Text, codes, text_eq, itoa}
use goreminder.Errors.{Err, Outcome, ok, err, panicked, not_found, validation, unprocessable_entity}
use goreminder.Models.{Task}
use goreminder.Calendar.Scope.{
  Origin, imported, exported, other_origin, binding_allows_task_export, should_export_task,
  task_matches_export_binding_group,
}
use goreminder.Service.Repository.{get_task_any_status}
use goreminder.Sync.World.{
  TaskSyncLink, CalendarBinding, OutboxKind, export_upsert, export_delete, OutboxPayload, SyncEnv,
  Sync, pure, lift, raise, service, attempt, best_effort, ◌>>=◌, ◌>>◌,
}
use goreminder.Sync.Rows.{
  google_calendar, select, create_link, get_link_by_task_id, update_link, get_binding,
  list_bindings, enqueue,
}

abbrev pub is_deleted : Text → Bool
is_deleted action = text_eq action (codes "deleted")

abbrev pub matches_group : Task → CalendarBinding → Bool
matches_group task b = task_matches_export_binding_group (some task) (some b.group_id)

-- the keys of upsertIDs and of deleteIDs
pub record Targets : Type 0 where
  pub upserts : List ℕ
  pub deletes : List ℕ

abbrev pub add_key : ℕ → List ℕ → List ℕ
add_key id ids = if any (λ i. i == id) ids then ids else id ∷ ids

abbrev pub add_delete : ℕ → Targets → Targets
add_delete id t = record t { deletes = add_key id t.deletes }

abbrev pub add_upsert : ℕ → Targets → Targets
add_upsert id t = record t { upserts = add_key id t.upserts }

-- what the link of the task asks for
unfoldable pub link_targets : Task → Text → Option (TaskSyncLink × CalendarBinding) → Targets
link_targets task action none = record { upserts = []; deletes = [] }
link_targets task action (some (link, b)) =
    if is_deleted action || (not (matches_group task b) && not link.export_opt_in)
    then record { upserts = []; deletes = b.id ∷ [] }
    else record { upserts = b.id ∷ []; deletes = [] }

-- a binding of the user asks too, if the task is in its scope
abbrev pub binding_target : Task → Text → CalendarBinding → Targets → Targets
binding_target task action b t =
    if not (binding_allows_task_export b.direction) || not (matches_group task b)
    then t
    else if is_deleted action
    then add_delete b.id t
    else add_upsert b.id t

unfoldable pub binding_targets : Task → Text → List CalendarBinding → Targets → Targets
binding_targets task action [] t = t
binding_targets task action (b ∷ bindings) t =
    binding_targets task action bindings (binding_target task action b t)

-- a delete is preferred
abbrev pub prefer_deletes : Targets → Targets
prefer_deletes t = record t {
  upserts = select (λ id. not (any (λ d. d == id) t.deletes)) t.upserts;
}

unfoldable pub export_targets :
    Task → Text → Option (TaskSyncLink × CalendarBinding) → List CalendarBinding → Targets
export_targets task action linked bindings =
    prefer_deletes (binding_targets task action bindings (link_targets task action linked))

abbrev payload_of : ℕ → ℕ → OutboxPayload
payload_of task_id binding_id = record { task_id = task_id; binding_id = binding_id; link_id = 0 }

abbrev link_payload : ℕ → ℕ → OutboxPayload
link_payload task_id link_id = record { task_id = task_id; binding_id = 0; link_id = link_id }

abbrev pub is_exported : Origin → Bool
is_exported exported = true
is_exported imported = false
is_exported other_origin = false

abbrev pub allowed_binding :
    TaskSyncLink → Outcome CalendarBinding → Option (TaskSyncLink × CalendarBinding)
allowed_binding link (ok b) =
    if binding_allows_task_export b.direction then some (link, b) else none
allowed_binding link (err x) = none
allowed_binding link panicked = none

module _ (e : SyncEnv) where
  unfoldable pub binding_of :
      TaskSyncLink → Option ℕ → Sync (Option (TaskSyncLink × CalendarBinding))
  binding_of link none = pure none
  binding_of link (some id) = do
    found ← attempt (get_binding e id)
    pure (allowed_binding link found)

  -- the binding of a link, if the link is enabled and its binding allows exports
  unfoldable pub export_binding : TaskSyncLink → Sync (Option (TaskSyncLink × CalendarBinding))
  export_binding link =
      if link.sync_enabled then binding_of link link.calendar_binding_id else pure none

  unfoldable pub binding_of_found :
      Outcome TaskSyncLink → Sync (Option (TaskSyncLink × CalendarBinding))
  binding_of_found (ok link) = export_binding link
  binding_of_found (err x) = pure none
  binding_of_found panicked = lift panicked

  unfoldable pub enqueue_each : OutboxKind → ℕ → List ℕ → Sync (Unit {0})
  enqueue_each kind task_id [] = pure tt
  enqueue_each kind task_id (id ∷ ids) = do
    enqueue e kind (payload_of task_id id)
    enqueue_each kind task_id ids

  abbrev exported_only : ℕ → TaskSyncLink → Sync (Unit {0})
  exported_only task_id link =
      if not (is_exported link.origin)
      then pure tt
      else do enqueue e export_delete (link_payload task_id link.id); pure tt

  unfoldable pub delete_by_link : ℕ → Outcome TaskSyncLink → Sync (Unit {0})
  delete_by_link task_id (err not_found) = pure tt
  delete_by_link task_id (err x) = raise x
  delete_by_link task_id panicked = lift panicked
  delete_by_link task_id (ok link) = exported_only task_id link

  -- enqueueExportDeleteByExportedLink
  unfoldable pub enqueue_export_delete_by_exported_link : ℕ → Sync (Unit {0})
  enqueue_export_delete_by_exported_link task_id = do
    found ← attempt (get_link_by_task_id e task_id)
    delete_by_link task_id found

  abbrev gone_targets : ℕ → TaskSyncLink → Option (TaskSyncLink × CalendarBinding) → Sync (Unit {0})
  gone_targets task_id link none = exported_only task_id link
  gone_targets task_id link (some (_, b)) = do
    enqueue e export_delete (payload_of task_id b.id)
    pure tt

  unfoldable pub delete_gone : ℕ → Outcome TaskSyncLink → Sync (Unit {0})
  delete_gone task_id (err not_found) = pure tt
  delete_gone task_id (err x) = raise x
  delete_gone task_id panicked = lift panicked
  delete_gone task_id (ok link) = do
    allowed ← export_binding link
    gone_targets task_id link allowed

  -- enqueueExportDeleteForGoneTask
  unfoldable pub enqueue_export_delete_for_gone_task : ℕ → Sync (Unit {0})
  enqueue_export_delete_for_gone_task task_id = do
    found ← attempt (get_link_by_task_id e task_id)
    delete_gone task_id found

  unfoldable pub enqueue_targets : ℕ → Text → Targets → Sync (Unit {0})
  enqueue_targets task_id action t = do
    enqueue_each export_upsert task_id (e.map_order t.upserts)
    enqueue_each export_delete task_id (e.map_order t.deletes)
    (if null t.upserts && null t.deletes && is_deleted action
        then enqueue_export_delete_by_exported_link task_id
        else pure tt)

  unfoldable pub enqueue_live : Task → Text → Sync (Unit {0})
  enqueue_live task action = if not (should_export_task (some task)) then pure tt else do
    found ← attempt (get_link_by_task_id e task.id)
    linked ← binding_of_found found
    bindings ← list_bindings e task.user_id
    enqueue_targets task.id action (export_targets task action linked bindings)

  unfoldable pub enqueue_found : ℕ → Text → Outcome Task → Sync (Unit {0})
  enqueue_found task_id action (ok task) = enqueue_live task action
  enqueue_found task_id action (err not_found) =
      if is_deleted action then enqueue_export_delete_for_gone_task task_id else raise not_found
  enqueue_found task_id action (err x) = raise x
  enqueue_found task_id action panicked = lift panicked

  -- EnqueueExport
  unfoldable pub enqueue_export : ℕ → Text → Sync (Unit {0})
  enqueue_export task_id action = do
    found ← attempt (service (get_task_any_status e.base task_id))
    enqueue_found task_id action found

  -- OnTaskChanged: an error is logged
  unfoldable pub on_task_changed : ℕ → Text → Sync (Unit {0})
  on_task_changed task_id action = best_effort (enqueue_export task_id action)

  abbrev new_export_link : ℕ → CalendarBinding → TaskSyncLink
  new_export_link task_id b = record {
    id = 0;
    task_id = task_id;
    provider = google_calendar;
    google_calendar_id = b.google_calendar_id;
    google_event_id = codes "pending-" ++ itoa task_id;
    etag = none;
    google_updated_at = none;
    origin = exported;
    sync_enabled = true;
    export_opt_in = true;
    calendar_binding_id = some b.id;
    duration_seconds = none;
    last_synced_at = none;
    last_error = none;
  }

  -- the origin is never empty in the table, so that it stays
  abbrev opted_in : CalendarBinding → TaskSyncLink → TaskSyncLink
  opted_in b link = record link {
    sync_enabled = true;
    export_opt_in = true;
    calendar_binding_id = some b.id;
    google_calendar_id = b.google_calendar_id;
  }

  unfoldable pub opt_in : ℕ → CalendarBinding → Outcome TaskSyncLink → Sync TaskSyncLink
  opt_in task_id b (ok link) = do update_link e (opted_in b link); pure (opted_in b link)
  opt_in task_id b (err not_found) = do
    id ← create_link e (new_export_link task_id b)
    pure (record (new_export_link task_id b) { id = id })
  opt_in task_id b (err x) = raise x
  opt_in task_id b panicked = lift panicked

  unfoldable pub require : Bool → Err → Sync (Unit {0})
  require b x = if b then pure tt else raise x

  -- EnableTaskExport
  unfoldable pub enable_task_export : ℕ → ℕ → Sync TaskSyncLink
  enable_task_export task_id binding_id = do
    task ← service (get_task_any_status e.base task_id)
    require (should_export_task (some task)) validation
    b ← get_binding e binding_id
    require (b.user_id == task.user_id) unprocessable_entity
    require (binding_allows_task_export b.direction) validation
    found ← attempt (get_link_by_task_id e task_id)
    link ← opt_in task_id b found
    enqueue_export task_id (codes "updated")
    pure link
