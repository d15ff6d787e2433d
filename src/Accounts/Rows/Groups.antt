-- ===== src/Accounts/Rows/Groups.antt =====
-- internal/repository/task_group_repository.go, and CountByGroupID of
-- calendar_binding_repository.go.
use goreminder.Prelude.{ℕ, Bool, ◌&&◌, Option, none, some, List, length, ◌==◌}
use goreminder.Prelude.Int.{ℤ}
use goreminder.Text.{Text}
use goreminder.Sync.World.{CalendarBinding}
use goreminder.Sync.Rows.{select}
use goreminder.Accounts.World.{AccountEnv, Accounts, TaskGroup, Rows, pure, gets, call, ◌>>=◌, ◌>>◌}
use goreminder.Accounts.Table.{
  Table, is_live, equals, if_given, insert_row, get_row, change_rows, delete_rows, get_page,
}

abbrev pub groups_table : Table TaskGroup
groups_table = record {
  rows = λ s. s.groups;
  store = λ (r : Rows TaskGroup) s. record s { groups = r };
}

abbrev pub live_group : TaskGroup → Bool
live_group g = is_live g.deleted_at

abbrev pub is_group : ℕ → TaskGroup → Bool
is_group id g = (g.id == id) && live_group g

abbrev pub references : ℕ → CalendarBinding → Bool
references id b = equals id b.group_id && is_live b.deleted_at

module _ (e : AccountEnv) where
  unfoldable pub create_task_group : TaskGroup → Accounts ℕ
  create_task_group g = insert_row e groups_table (λ id. record g { id = id; deleted_at = none })

  unfoldable pub get_task_group_by_id : ℕ → Accounts TaskGroup
  get_task_group_by_id id = get_row e groups_table (is_group id)

  unfoldable pub get_all_task_groups : ℤ → ℤ → Text → Option ℕ → Accounts (List TaskGroup × ℕ)
  get_all_task_groups page size order_by user =
      get_page e groups_table e.order_groups
        (λ g. live_group g && if_given (λ u. g.user_id == u) user) page size order_by

  unfoldable pub update_task_group : TaskGroup → Accounts (Unit {0})
  update_task_group g =
      change_rows e groups_table (is_group g.id) (λ row. record row { name = g.name })

  unfoldable pub delete_task_group : ℕ → Accounts (Unit {0})
  delete_task_group id =
      delete_rows e groups_table (is_group id) (λ now g. record g { deleted_at = some now })

  unfoldable pub count_by_group_id : ℕ → Accounts ℕ
  count_by_group_id id = do
    call e
    bindings ← gets (λ s. s.bindings)
    pure (length (select (references id) bindings))
