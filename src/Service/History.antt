-- ===== src/Service/History.antt =====
-- internal/service/task_service.go: GetTaskHistory and GetUserTaskHistory, with their queries of
-- internal/repository/task_history_repository.go. The columns of JSON are read as they were written.
use goreminder.Prelude.{ℕ, List, ◌==◌, if◌then◌else◌}
use goreminder.Prelude.Int.{ℤ, pos, negsuc}
use goreminder.Errors.{not_found_as_unprocessable}
use goreminder.Service.World.{Env, TaskHistory, M, pure, gets, outside, map_err, ◌>>=◌, ◌>>◌}
use goreminder.Service.Repository.{get_task}
use goreminder.Service.Create.{get_user}
use goreminder.Sync.Rows.{select, first_n}
use goreminder.Accounts.Table.{skip_n}

-- `if limit <= 0 { limit = 50 }`
unfoldable pub history_limit : ℤ → ℕ
history_limit (pos n) = if n == 0 then 50 else n
history_limit (negsuc n) = 50

-- `if offset < 0 { offset = 0 }`
unfoldable pub history_offset : ℤ → ℕ
history_offset (pos n) = n
history_offset (negsuc n) = 0

-- `newest` is ORDER BY created_at DESC
module _ (e : Env) (newest : List TaskHistory → List TaskHistory) where
  unfoldable pub get_task_history_by_task_id : ℕ → M (List TaskHistory)
  get_task_history_by_task_id id = do
    outside e
    rows ← gets (λ w. w.history)
    pure (newest (select (λ h. h.task_id == id) rows))

  unfoldable pub get_task_history_by_user_id : ℕ → ℤ → ℤ → M (List TaskHistory)
  get_task_history_by_user_id user limit offset = do
    outside e
    rows ← gets (λ w. w.history)
    pure (
        first_n (history_limit limit)
          (skip_n (history_offset offset) (newest (select (λ h. h.user_id == user) rows))))

  unfoldable pub get_task_history : ℕ → M (List TaskHistory)
  get_task_history id = do get_task e id; get_task_history_by_task_id id

  unfoldable pub get_user_task_history : ℕ → ℤ → ℤ → M (List TaskHistory)
  get_user_task_history user limit offset = do
    map_err not_found_as_unprocessable (get_user e user)
    get_task_history_by_user_id user limit offset
