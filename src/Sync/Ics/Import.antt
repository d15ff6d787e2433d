-- ===== src/Sync/Ics/Import.antt =====
-- ICSImportService.Import of internal/service/ics_import_service.go, on the tables of the task
-- service. A log line is left out.
use goreminder.Prelude.{
  ℕ, suc, false, Option, none, some, List, [], ◌∷◌, ◌++◌, map, ◌==◌, if◌then◌else◌,
}
use goreminder.Text.{Text, codes}
use goreminder.Errors.{
  Outcome, ok, err, panicked, validation, unprocessable_entity, not_found_as_unprocessable,
}
use goreminder.Models.{Task}
use goreminder.Service.World.{
  M, pure, raise, lift, attempt, map_err, best_effort, outside, time_now, ◌>>=◌, ◌>>◌,
}
use goreminder.Service.Publish.{get_messenger_related_user}
use goreminder.Service.Create.{get_user, create_task}
use goreminder.Sync.World.{SyncEnv}
use goreminder.Sync.Fields.{map_event_to_task_fields}
use goreminder.Sync.Import.{publish_imported_task_schedule}
use goreminder.Sync.Ics.{
  Calendar, IcsEvent, ParseError, ParseResult, DateLayouts, parse, ics_event_to_google,
}

pub record IcsImportOptions : Type 0 where
  pub user_id : ℕ
  pub group_id : Option ℕ
  pub messenger_related_user_id : Option ℕ

-- the text of an error is left out
pub record IcsImportItemError : Type 0 where
  pub index : ℕ
  pub uid : Text

pub record IcsImportResult : Type 0 where
  pub created_task_ids : List ℕ
  pub skipped_todo : ℕ
  pub errors : List IcsImportItemError

abbrev pub item_error : ParseError → IcsImportItemError
item_error x = record { index = x.index; uid = x.uid }

abbrev pub add_error : ℕ → IcsEvent → IcsImportResult → IcsImportResult
add_error i ev r = record r { errors = r.errors ++ record { index = i; uid = ev.uid } ∷ [] }

abbrev pub add_id : ℕ → IcsImportResult → IcsImportResult
add_id id r = record r { created_task_ids = r.created_task_ids ++ id ∷ [] }

-- what CreateTask is given
abbrev pub ics_task : Task → Task
ics_task task = record task { requires_confirmation = false; history_source = codes "ics_import" }

-- `group_owner` is the user of each row of task_groups that is not deleted
module _ (e : SyncEnv) (lib : DateLayouts) (group_owner : ℕ → Option ℕ)
    (opts : IcsImportOptions) where
  abbrev owned_by : Option ℕ → M (Unit {0})
  owned_by none = raise validation
  owned_by (some owner) = if owner == opts.user_id then pure tt else raise validation

  abbrev group_found : Option ℕ → M (Unit {0})
  group_found none = raise unprocessable_entity
  group_found (some owner) = owned_by (some owner)

  unfoldable pub check_group : Option ℕ → M (Unit {0})
  check_group none = pure tt
  check_group (some id) = do
    map_err not_found_as_unprocessable (outside e.base)
    group_found (group_owner id)

  unfoldable pub check_related : Option ℕ → M (Unit {0})
  check_related none = pure tt
  check_related (some id) = do
    related ← map_err not_found_as_unprocessable (get_messenger_related_user e.base id)
    owned_by related.user_id

  -- everything before the file is read
  unfoldable pub check_options : M (Unit {0})
  check_options = do
    (if opts.user_id == 0 then raise validation else pure tt)
    map_err not_found_as_unprocessable (get_user e.base opts.user_id)
    check_group opts.group_id
    check_related opts.messenger_related_user_id

  unfoldable pub map_event : IcsEvent → M Task
  map_event ev = do
    now ← time_now e.base
    lift (
        map_event_to_task_fields e opts.user_id opts.group_id opts.messenger_related_user_id
          (ics_event_to_google lib ev) now)

  -- a schedule that cannot be queued is logged
  unfoldable pub after_created :
      ℕ → IcsEvent → Task → IcsImportResult → Outcome (ℕ × ℕ) → M IcsImportResult
  after_created i ev task r (err x) = pure (add_error i ev r)
  after_created i ev task r panicked = lift panicked
  after_created i ev task r (ok (id, child)) = do
    best_effort (publish_imported_task_schedule e (record (ics_task task) { id = id }))
    pure (add_id id r)

  unfoldable pub import_mapped : ℕ → IcsEvent → IcsImportResult → Outcome Task → M IcsImportResult
  import_mapped i ev r (err x) = pure (add_error i ev r)
  import_mapped i ev r panicked = lift panicked
  import_mapped i ev r (ok task) = do
    created ← attempt (create_task e.base (ics_task task))
    after_created i ev task r created

  -- the body of the loop
  unfoldable pub import_event : ℕ → IcsEvent → IcsImportResult → M IcsImportResult
  import_event i ev r = do fields ← attempt (map_event ev); import_mapped i ev r fields

  unfoldable pub import_parsed_events : ℕ → List IcsEvent → IcsImportResult → M IcsImportResult
  import_parsed_events i [] r = pure r
  import_parsed_events i (ev ∷ evs) r = do
    next ← import_event i ev r
    import_parsed_events (suc i) evs next

  unfoldable pub import_parsed : ParseResult → M IcsImportResult
  import_parsed p = import_parsed_events 0 p.events (record {
    created_task_ids = [];
    skipped_todo = p.skipped_todo;
    errors = map item_error p.errors;
  })

  unfoldable pub import_read : Option Calendar → M IcsImportResult
  import_read none = raise validation
  import_read (some cal) = import_parsed (parse lib cal)

  -- Import; none is a file that golang-ical does not read
  unfoldable pub import_ics : Option Calendar → M IcsImportResult
  import_ics cal = do check_options; import_read cal
