-- ===== src/Examples/Syncs.antt =====
-- Examples of the calendar synchronisation.
use goreminder.Prelude.{
  ◌*◌, ◌≡◌, ◌≤◌, ◌<◌, ◌⊎◌, refl, true, false, none, some, List, [], ◌∷◌, All, arith,
}
use goreminder.Prelude.Int.{pos}
use goreminder.Text.{codes, trim_space, trim_left, trim_right, is_space}
use goreminder.Errors.{ok}
use goreminder.Clock.{Time, day}
use goreminder.Models.{Task, status_scheduled, status_done}
use goreminder.Calendar.Scope.{
  soft_delete_imported, binding_allows_task_export, direction_both, exported,
  keep_exported_reminder_open,
}
use goreminder.Calendar.Rule.{recurrence_to_rrule}
use goreminder.Sync.World.{
  TaskSyncLink, CalendarBinding, binding_active, SyncOutbox, other_kind, export_delete, pending,
  SyncEnv, SyncWorld, ◌>>=◌, attempt, call, gets, service, pure, or_not_found,
}
use goreminder.Service.World.{outside}
use goreminder.Sync.Event.{
  Event, event_start_time, event_end_time, build_export_event, task_id_from_extended_properties,
}
use goreminder.Sync.Event.RoundTrip.{build_export_event-task_id}
use goreminder.Sync.Fields.{map_event_to_task_fields, import_start, imported_task}
use goreminder.Sync.Import.{merged}
use goreminder.Sync.Import.Merge.{map_event_to_task_fields-IsSettled, merged-reminder}
use goreminder.Sync.Rows.{get_binding, find, is_processing}
use goreminder.Sync.Export.{export_targets, export_binding, binding_of, binding_of_found}
use goreminder.Sync.Export.Asked.{has, export_targets-asked}
use goreminder.Sync.Outbox.{process_outbox}
use goreminder.Sync.Outbox.Drained.{process_outbox-drained}
use goreminder.Sync.Outbox.Lifecycle.{Evolved}
use goreminder.Sync.Outbox.Lifecycle.Refines.{process_outbox-refines}
use goreminder.Sync.Outbox.Lifecycle.Tries.{AllReturn, Tried, run_each, process_outbox-Tried}
use goreminder.Examples.{reminder, env, world}

abbrev pub sync_env : SyncEnv
sync_env = record {
  base = record (env none) { fault = λ n. none };
  accounts = λ id. none;
  decrypt = λ s. some s;
  new_client = λ access refresh. none;
  parse_date = λ s. none;
  created = λ n. none;
  patched = λ n. none;
  deleted = λ n. none;
  calendar_summary = λ n. none;
  default_event_duration_minutes = pos 30;
  map_order = λ ids. ids;
}

abbrev pub binding : CalendarBinding
binding = record {
  id = 4;
  user_id = 7;
  google_account_id = 2;
  google_calendar_id = codes "primary";
  calendar_summary = none;
  direction = direction_both;
  group_id = none;
  messenger_related_user_id = some 3;
  sync_token = none;
  last_synced_at = none;
  last_error = none;
  status = binding_active;
  delete_policy = soft_delete_imported;
  sync_attempts = 0;
  next_retry_at = none;
  deleted_at = none;
}

-- an item that was tried seven times, and one of an unknown kind
abbrev items : List SyncOutbox
items =
    record {
      id = 1;
      kind = export_delete;
      payload = none;
      attempts = 7;
      next_retry_at = 0;
      last_error = none;
      status = pending;
    }
    ∷ record {
      id = 2;
      kind = other_kind;
      payload = none;
      attempts = 0;
      next_retry_at = 0;
      last_error = none;
      status = pending;
    }
    ∷ []

abbrev sync_world : SyncWorld
sync_world = record {
  base = world;
  links = [];
  bindings = binding ∷ [];
  outbox = items;
  remote = [];
  next_link_id = 1;
  next_outbox_id = 3;
}

process_outbox-Tried_example :
    AllReturn (sync_env ∷ sync_env ∷ []) sync_world
    × Tried items (run_each (sync_env ∷ sync_env ∷ []) sync_world).outbox
process_outbox-Tried_example =
    process_outbox-Tried (sync_env ∷ sync_env ∷ []) sync_world ((refl, tt), (tt, tt))
      (refl, (refl, tt))

process_outbox-drained_example :
    ((process_outbox sync_env sync_world).0 ≡ ok tt)
    × All (λ o. is_processing o.status ≡ false) (process_outbox sync_env sync_world).1.outbox
process_outbox-drained_example =
    process_outbox-drained sync_env sync_world (λ n. refl) (refl, (refl, tt))

process_outbox-refines_example : Evolved items (process_outbox sync_env sync_world).1.outbox
process_outbox-refines_example = process_outbox-refines sync_env sync_world ((refl, tt), (tt, tt))

-- the enabled link of the reminder to the binding
abbrev reminder_link : TaskSyncLink
reminder_link = record {
  id = 1;
  task_id = reminder.id;
  provider = codes "google";
  google_calendar_id = codes "primary";
  google_event_id = codes "ev";
  etag = none;
  google_updated_at = none;
  origin = exported;
  sync_enabled = true;
  export_opt_in = false;
  calendar_binding_id = some 4;
  duration_seconds = none;
  last_synced_at = none;
  last_error = none;
}

read_link :
    (binding_of_found sync_env (ok reminder_link) sync_world).0 ≡ ok (some (reminder_link, binding))
unfolding binding_of_found export_binding binding_of ◌>>=◌ attempt get_binding call gets service
    outside pure or_not_found find binding_allows_task_export
read_link = refl

export_targets-asked_example :
    let t = export_targets reminder (codes "deleted") (some (reminder_link, binding)) [] in
    (has 4 t.deletes ≡ true) × (has 4 t.upserts ≡ false)
unfolding get_binding ◌>>=◌ call gets service outside pure or_not_found find
    binding_allows_task_export
export_targets-asked_example =
    export_targets-asked sync_env sync_world reminder (codes "deleted") (ok reminder_link)
      (some (reminder_link, binding)) [] 4 read_link

build_export_event-task_id_example :
    task_id_from_extended_properties
      (build_export_event sync_env.base.lib reminder (pos 30) none).task_id_property
    ≡ some (pos 1)
build_export_event-task_id_example =
    build_export_event-task_id sync_env.base.lib reminder (pos 30) none (omega arith)

-- the reminder as it stands in the calendar, seen a day later
abbrev echo : Event
echo = record {
  id = codes "ev";
  summary = codes "water the plants";
  description = [];
  start = record { date_time = some reminder.start_date; date = []; time_zone = codes "UTC" };
  end = record { date_time = none; date = []; time_zone = [] };
  status = codes "confirmed";
  etag = [];
  updated = 0;
  recurrence = [];
  task_id_property = some (codes "1");
}

abbrev echoed : Task
echoed = record reminder {
  id = 0;
  finish_date = some reminder.start_date;
  pre_remind_before_seconds = none;
  status = status_done;
}

mapped :
    map_event_to_task_fields sync_env binding.user_id binding.group_id
      binding.messenger_related_user_id echo
      (11 * day)
    ≡ ok echoed
unfolding map_event_to_task_fields import_start event_start_time event_end_time recurrence_to_rrule
    imported_task trim_space trim_left trim_right is_space
mapped = refl

map_event_to_task_fields-IsSettled_example :
    ((echoed.status ≡ status_scheduled)
      × (11 * day < echoed.start_date)
      × (echoed.finish_date ≡ none))
    ⊎ ((echoed.status ≡ status_done)
        × (echoed.start_date ≤ 11 * day)
        × (finish : Time) × (echoed.finish_date ≡ some finish)
        × (finish ≤ 11 * day))
map_event_to_task_fields-IsSettled_example =
    map_event_to_task_fields-IsSettled sync_env binding echo (11 * day) echoed mapped

merged-reminder_example :
    ((merged (keep_exported_reminder_open exported echoed.status) echoed reminder).status
      ≡ reminder.status)
    × ((merged (keep_exported_reminder_open exported echoed.status) echoed reminder).start_date
        ≡ reminder.start_date)
    × ((merged (keep_exported_reminder_open exported echoed.status) echoed reminder).finish_date
        ≡ reminder.finish_date)
    × ((merged (keep_exported_reminder_open exported echoed.status) echoed reminder).rrule
        ≡ reminder.rrule)
merged-reminder_example =
    merged-reminder sync_env binding echo (11 * day) exported echoed reminder mapped
