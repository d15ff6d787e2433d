-- ===== src/Calendar/Scope.antt =====
-- internal/service/calendar_sync_helpers.go: which tasks are exported, and what an import changes.
use goreminder.Prelude.{ℕ, Bool, true, false, not, Option, none, some, is_some, ◌==◌}
use goreminder.Text.{Text, text_eq}
use goreminder.Models.{Task, status_done}

-- models.CalendarDeletePolicy, CalendarBindingDirection and TaskSyncLinkOrigin; the last
-- constructor of each is any other text
pub data DeletePolicy : Type 0 where
  mute_imported keep soft_delete_imported other_policy : DeletePolicy

pub data Direction : Type 0 where
  direction_import direction_export direction_both other_direction : Direction

pub data Origin : Type 0 where
  imported exported other_origin : Origin

-- whether to delete softly, and whether to mute
unfoldable pub apply_delete_policy : DeletePolicy → Bool × Bool
apply_delete_policy mute_imported = (false, true)
apply_delete_policy keep = (false, false)
apply_delete_policy soft_delete_imported = (true, false)
apply_delete_policy other_policy = (true, false)

unfoldable pub binding_allows_task_export : Direction → Bool
binding_allows_task_export direction_import = false
binding_allows_task_export direction_export = true
binding_allows_task_export direction_both = true
binding_allows_task_export other_direction = false

unfoldable pub should_export_task : Option Task → Bool
should_export_task none = false
should_export_task (some task) = not (is_some task.parent_id)

abbrev same_group : Option ℕ → ℕ → Bool
same_group none g = false
same_group (some h) g = h == g

-- the second argument is the binding, with its optional group
unfoldable pub task_matches_export_binding_group : Option Task → Option (Option ℕ) → Bool
task_matches_export_binding_group task none = false
task_matches_export_binding_group none (some group) = false
task_matches_export_binding_group (some task) (some none) = true
task_matches_export_binding_group (some task) (some (some g)) = same_group task.group_id g

unfoldable pub keep_exported_reminder_open : Origin → Text → Bool
keep_exported_reminder_open exported status = text_eq status status_done
keep_exported_reminder_open imported status = false
keep_exported_reminder_open other_origin status = false

abbrev pub or_binding : Option ℕ → Option ℕ → Option ℕ
or_binding none chat = chat
or_binding (some id) chat = some id

-- a task keeps the chat that it has
unfoldable pub apply_imported_delivery_chat : Task → Option ℕ → Task
apply_imported_delivery_chat task chat = record task {
  messenger_related_user_id = or_binding task.messenger_related_user_id chat;
}
