-- ===== src/Sync/Rows.antt =====
-- internal/repository/task_sync_link_repository.go, calendar_binding_repository.go and
-- sync_outbox_repository.go. The constraints of the tables are those of
-- migrations/20260921100000_add_task_groups_and_calendar_sync.sql.
use goreminder.Prelude.{
  ℕ, zero, suc, ◌+◌, Bool, true, false, not, ◌&&◌, ◌||◌, Option, none, some, is_some, List, [], ◌∷◌,
  ◌++◌, any, length, null, map, leb, ◌==◌, if◌then◌else◌,
}
use goreminder.Text.{Text, codes, text_eq}
use goreminder.Errors.{Err, other}
use goreminder.Clock.{Time}
use goreminder.Models.{Task}
use goreminder.Sync.World.{
  binding_disconnected, TaskSyncLink, CalendarBinding, OutboxKind, OutboxStatus, pending,
  processing, done, failed, OutboxPayload, SyncOutbox, SyncEnv, Sync, pure, raise, gets, modify,
  call, time_now, or_not_found, ◌>>=◌, ◌>>◌,
}

abbrev pub google_calendar : Text
google_calendar = codes "google_calendar"

module _ {A : Type 0} where
  unfoldable pub find : (A → Bool) → List A → Option A
  find p [] = none
  find p (a ∷ l) = if p a then some a else find p l

  unfoldable pub select : (A → Bool) → List A → List A
  select p [] = []
  select p (a ∷ l) = let rest = select p l in if p a then a ∷ rest else rest

  unfoldable pub change : (A → Bool) → (A → A) → List A → List A
  change p f [] = []
  change p f (a ∷ l) = (if p a then f a else a) ∷ change p f l

  -- the last element that passes, none where the argument is none
  unfoldable pub find_last : (A → Bool) → List A → Option A → Option A
  find_last p [] found = found
  find_last p (a ∷ l) found = find_last p l (if p a then some a else found)

abbrev pub is_link : ℕ → TaskSyncLink → Bool
is_link id l = l.id == id

-- ORDER BY id DESC LIMIT 1: the rows stand in the order of their ids
abbrev pub link_of_task : ℕ → List TaskSyncLink → Option TaskSyncLink
link_of_task id links = find_last (λ l. l.task_id == id) links none

abbrev pub is_event : Text → Text → Text → TaskSyncLink → Bool
is_event provider calendar event l =
    text_eq l.provider provider
    && text_eq l.google_calendar_id calendar
    && text_eq l.google_event_id event

-- uq_task_sync_links_task_provider_event and uq_task_sync_links_provider_calendar_event
abbrev clashes : TaskSyncLink → TaskSyncLink → Bool
clashes new l =
    text_eq l.provider new.provider
    && text_eq l.google_event_id new.google_event_id
    && (l.task_id == new.task_id || text_eq l.google_calendar_id new.google_calendar_id)

-- the columns that Update sets; the task is not one of them
abbrev pub update_link_row : TaskSyncLink → TaskSyncLink → TaskSyncLink
update_link_row new row = record row {
  google_calendar_id = new.google_calendar_id;
  google_event_id = new.google_event_id;
  etag = new.etag;
  google_updated_at = new.google_updated_at;
  origin = new.origin;
  sync_enabled = new.sync_enabled;
  export_opt_in = new.export_opt_in;
  calendar_binding_id = new.calendar_binding_id;
  duration_seconds = new.duration_seconds;
  last_synced_at = new.last_synced_at;
  last_error = new.last_error;
}

abbrev pub with_provider : TaskSyncLink → TaskSyncLink
with_provider l = if null l.provider then record l { provider = google_calendar } else l

-- the constraints of the table, and the task that a link refers to
abbrev pub violates_new : TaskSyncLink → List TaskSyncLink → List Task → Bool
violates_new link links tasks =
    any (clashes (with_provider link)) links || not (any (λ t. t.id == link.task_id) tasks)

abbrev pub violates_changed : TaskSyncLink → TaskSyncLink → List TaskSyncLink → Bool
violates_changed link row links =
    any (λ l. not (l.id == link.id) && clashes (update_link_row link row) l) links

abbrev pub is_binding : ℕ → CalendarBinding → Bool
is_binding id b = b.id == id && not (is_some b.deleted_at)

abbrev is_of_binding : ℕ → Option ℕ → Bool
is_of_binding id none = false
is_of_binding id (some b) = b == id

-- the columns that Update sets
abbrev pub update_binding_row : CalendarBinding → CalendarBinding → CalendarBinding
update_binding_row new row = record row {
  calendar_summary = new.calendar_summary;
  direction = new.direction;
  group_id = new.group_id;
  messenger_related_user_id = new.messenger_related_user_id;
  sync_token = new.sync_token;
  last_synced_at = new.last_synced_at;
  last_error = new.last_error;
  status = new.status;
  delete_policy = new.delete_policy;
  sync_attempts = new.sync_attempts;
  next_retry_at = new.next_retry_at;
}

abbrev delete_binding_row : Time → CalendarBinding → CalendarBinding
delete_binding_row now b = record b { deleted_at = some now; status = binding_disconnected }

abbrev pub is_item : ℕ → SyncOutbox → Bool
is_item id o = o.id == id

abbrev pub is_pending : OutboxStatus → Bool
is_pending pending = true
is_pending processing = false
is_pending done = false
is_pending failed = false

abbrev pub is_processing : OutboxStatus → Bool
is_processing processing = true
is_processing pending = false
is_processing done = false
is_processing failed = false

abbrev is_open : OutboxStatus → Bool
is_open st = is_pending st || is_processing st

-- status = 'pending' AND next_retry_at <= now
abbrev pub is_due : Time → SyncOutbox → Bool
is_due now o = is_pending o.status && leb o.next_retry_at now

abbrev pub with_status : OutboxStatus → SyncOutbox → SyncOutbox
with_status st o = record o { status = st }

abbrev pub retried : ℕ → Time → Err → SyncOutbox → SyncOutbox
retried attempts at x o = record o {
  status = pending;
  attempts = attempts;
  next_retry_at = at;
  last_error = some x;
}

abbrev pub gave_up : Err → SyncOutbox → SyncOutbox
gave_up x o = record o { status = failed; last_error = some x }

unfoldable pub first_n : {A : Type 0} → ℕ → List A → List A
first_n zero l = []
first_n (suc n) [] = []
first_n (suc n) (a ∷ l) = a ∷ first_n n l

module _ (e : SyncEnv) where
  -- taskSyncLinkRepository.Create
  unfoldable pub create_link : TaskSyncLink → Sync ℕ
  create_link link = do
    call e
    links ← gets (λ s. s.links)
    tasks ← gets (λ s. s.base.tasks)
    id ← gets (λ s. s.next_link_id)
    (if violates_new link links tasks then raise other else do
      modify (λ s. record s {
        links = s.links ++ record (with_provider link) { id = id } ∷ [];
        next_link_id = id + 1;
      })
      pure id)

  -- GetByTaskID
  unfoldable pub get_link_by_task_id : ℕ → Sync TaskSyncLink
  get_link_by_task_id id = do
    call e
    links ← gets (λ s. s.links)
    or_not_found (link_of_task id links)

  -- GetByEvent
  unfoldable pub get_link_by_event : Text → Text → Text → Sync TaskSyncLink
  get_link_by_event provider calendar event = do
    call e
    links ← gets (λ s. s.links)
    or_not_found (find (is_event provider calendar event) links)

  -- taskSyncLinkRepository.Update
  unfoldable pub update_link : TaskSyncLink → Sync (Unit {0})
  update_link link = do
    call e
    links ← gets (λ s. s.links)
    row ← or_not_found (find (is_link link.id) links)
    (if violates_changed link row links
        then raise other
        else modify
            (λ s. record s { links = change (is_link link.id) (update_link_row link) s.links }))

  -- taskSyncLinkRepository.Delete
  unfoldable pub delete_link : ℕ → Sync (Unit {0})
  delete_link id = do
    call e
    links ← gets (λ s. s.links)
    or_not_found (find (is_link id) links)
    modify (λ s. record s { links = select (λ l. not (l.id == id)) s.links })

  -- calendarBindingRepository.GetByID
  unfoldable pub get_binding : ℕ → Sync CalendarBinding
  get_binding id = do
    call e
    bindings ← gets (λ s. s.bindings)
    or_not_found (find (is_binding id) bindings)

  -- calendarBindingRepository.Update
  unfoldable pub update_binding : CalendarBinding → Sync (Unit {0})
  update_binding b = do
    call e
    bindings ← gets (λ s. s.bindings)
    or_not_found (find (is_binding b.id) bindings)
    modify (λ s. record s { bindings = change (is_binding b.id) (update_binding_row b) s.bindings })

  -- SoftDelete
  unfoldable pub soft_delete_binding : ℕ → Sync (Unit {0})
  soft_delete_binding id = do
    now ← time_now e
    call e
    bindings ← gets (λ s. s.bindings)
    or_not_found (find (is_binding id) bindings)
    modify (λ s. record s { bindings = change (is_binding id) (delete_binding_row now) s.bindings })

  -- ClearSyncToken
  unfoldable pub clear_sync_token : ℕ → Sync (Unit {0})
  clear_sync_token id = do
    call e
    modify (λ s. record s {
      bindings = change (is_binding id) (λ b. record b { sync_token = none }) s.bindings;
    })

  -- ListByBindingID
  unfoldable pub list_links_by_binding : ℕ → Sync (List TaskSyncLink)
  list_links_by_binding id = do
    call e
    gets (λ s. select (λ l. is_of_binding id l.calendar_binding_id) s.links)

  -- ListByUserID
  unfoldable pub list_bindings : ℕ → Sync (List CalendarBinding)
  list_bindings user = do
    call e
    gets (λ s. select (λ b. b.user_id == user && not (is_some b.deleted_at)) s.bindings)

  -- Enqueue
  unfoldable pub enqueue : OutboxKind → OutboxPayload → Sync ℕ
  enqueue kind payload = do
    now ← time_now e
    call e
    id ← gets (λ s. s.next_outbox_id)
    modify (λ s. record s {
      outbox =
          s.outbox
          ++ (record {
            id = id;
            kind = kind;
            payload = some payload;
            attempts = 0;
            next_retry_at = now;
            last_error = none;
            status = pending;
          })
            ∷ [];
      next_outbox_id = id + 1;
    })
    pure id

  -- the update of an outbox row: it fails where there is none
  unfoldable pub update_item : ℕ → (SyncOutbox → SyncOutbox) → Sync (Unit {0})
  update_item id f = do
    call e
    rows ← gets (λ s. s.outbox)
    or_not_found (find (is_item id) rows)
    modify (λ s. record s { outbox = change (is_item id) f s.outbox })

  unfoldable pub mark_done : ℕ → Sync (Unit {0})
  mark_done id = update_item id (with_status done)

  unfoldable pub mark_retry : ℕ → ℕ → Time → Err → Sync (Unit {0})
  mark_retry id attempts at x = update_item id (retried attempts at x)

  unfoldable pub mark_failed : ℕ → Err → Sync (Unit {0})
  mark_failed id x = update_item id (gave_up x)

  -- CountPending
  unfoldable pub count_pending : Sync ℕ
  count_pending = do call e; gets (λ s. length (select (λ o. is_open o.status) s.outbox))

  -- ClaimDue: the rows are locked between the two statements, and the commit is the last call
  unfoldable pub claim_due : ℕ → Sync (List SyncOutbox)
  claim_due limit = do
    call e
    now ← time_now e
    call e
    rows ← gets (λ s. s.outbox)
    let items = first_n (if limit == 0 then 50 else limit) (select (is_due now) rows)
    (if null items then pure [] else do
      call e
      call e
      modify (λ s. record s {
        outbox = change (λ o. any (λ i. i.id == o.id) items) (with_status processing) s.outbox;
      })
      pure (map (with_status processing) items))
