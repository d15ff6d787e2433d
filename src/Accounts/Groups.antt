-- ===== src/Accounts/Groups.antt =====
-- internal/service/task_group_service.go
pub mod References
use goreminder.Prelude.{ℕ, Option, none, some, List, not, null, ltb, if◌then◌else◌}
use goreminder.Prelude.Int.{ℤ}
use goreminder.Text.{Text}
use goreminder.Errors.{validation, conflict}
use goreminder.Accounts.World.{AccountEnv, Accounts, TaskGroup, pure, raise, ◌>>=◌, ◌>>◌}
use goreminder.Accounts.Rows
use goreminder.Accounts.Lookups.{touch_user_activity, require_user}

-- the name of a TaskGroupUpdateRequest
abbrev renamed_group : TaskGroup → Option Text → Accounts TaskGroup
renamed_group g none = pure g
renamed_group g (some name) =
    if null name then raise validation else pure (record g { name = name })

module _ (e : AccountEnv) where
  unfoldable pub create_task_group : TaskGroup → Accounts ℕ
  create_task_group g = if null g.name then raise validation else do
    require_user e g.user_id
    id ← Rows.Groups.create_task_group e g
    touch_user_activity e g.user_id
    pure id

  unfoldable pub get_all_task_groups : ℤ → ℤ → Text → Option ℕ → Accounts (List TaskGroup × ℕ)
  get_all_task_groups page size order_by user =
      Rows.Groups.get_all_task_groups e page size order_by user

  unfoldable pub update_task_group : ℕ → Option Text → Accounts TaskGroup
  update_task_group id name = do
    old ← Rows.Groups.get_task_group_by_id e id
    new ← renamed_group old name
    Rows.Groups.update_task_group e new
    touch_user_activity e new.user_id
    pure new

  -- a group that calendar bindings refer to is kept
  unfoldable pub check_unreferenced : ℕ → Accounts (Unit {0})
  check_unreferenced id =
      if not e.has_bindings
      then pure tt
      else do n ← Rows.Groups.count_by_group_id e id; if ltb 0 n then raise conflict else pure tt

  unfoldable pub delete_task_group : ℕ → Accounts (Unit {0})
  delete_task_group id = do
    group ← Rows.Groups.get_task_group_by_id e id
    check_unreferenced id
    Rows.Groups.delete_task_group e id
    touch_user_activity e group.user_id
