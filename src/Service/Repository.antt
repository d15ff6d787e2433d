-- ===== src/Service/Repository.antt =====
-- internal/repository/task_repository.go and task_history_repository.go: the statements on the
-- table of tasks. A row is live while `deleted_at` is null; every read takes committed live rows.
pub mod Transaction
pub mod Rows
pub mod Reads
use goreminder.Prelude.{
  ℕ, ◌+◌, Bool, true, false, not, ◌&&◌, ◌||◌, Option, none, some, List, [], ◌∷◌, ◌++◌, is_some, ltb,
  ◌==◌, if◌then◌else◌,
}
use goreminder.Text.{Text, text_eq}
use goreminder.Errors.{Err, Outcome, ok, err, not_found}
use goreminder.Clock.{Time, before}
use goreminder.Models.{
  Task, status_done, status_deleted, status_scheduled, status_rescheduled, status_postponed,
}
use goreminder.Service.World.{
  Env, World, TaskHistory, TxWrite, update, delete, delete_children, M, pure, raise, gets, modify,
  outside, time_now, ◌>>=◌, ◌>>◌,
}

abbrev pub has_status : Task → Text → Bool
has_status t s = text_eq t.status s

abbrev pub is_live : Task → Bool
is_live row = not (is_some row.deleted_at)

abbrev pub is_row : ℕ → Task → Bool
is_row id row = (row.id == id) && is_live row

abbrev pub is_parent : ℕ → Option ℕ → Bool
is_parent pid none = false
is_parent pid (some p) = p == pid

abbrev pub is_child_of : ℕ → Task → Bool
is_child_of pid row = is_parent pid row.parent_id && is_live row

unfoldable pub filter : (Task → Bool) → List Task → List Task
filter p [] = []
filter p (row ∷ rows) = if p row then row ∷ filter p rows else filter p rows

unfoldable pub first_row : (Task → Bool) → List Task → Option Task
first_row p [] = none
first_row p (row ∷ rows) = if p row then some row else first_row p rows

-- the columns that UPDATE sets
abbrev pub update_row : Task → Task → Task
update_row new row = record row {
  title = new.title;
  description = new.description;
  status = new.status;
  start_date = new.start_date;
  finish_date = new.finish_date;
  cron_expression = new.cron_expression;
  rrule = new.rrule;
  requires_confirmation = new.requires_confirmation;
  muted = new.muted;
  shift_from_completion = new.shift_from_completion;
  skip_digest = new.skip_digest;
  pre_remind_before_seconds = new.pre_remind_before_seconds;
  parent_id = new.parent_id;
  group_id = new.group_id;
}

-- the columns that a soft delete sets
abbrev pub delete_row : Time → Task → Task
delete_row at row = record row { deleted_at = some at; status = status_deleted }

-- UPDATE … WHERE p
unfoldable pub update_where : (Task → Bool) → (Task → Task) → List Task → List Task
update_where p f [] = []
update_where p f (row ∷ rows) = (if p row then f row else row) ∷ update_where p f rows

unfoldable pub apply_write : TxWrite → List Task → List Task
apply_write (update new) rows = update_where (is_row new.id) (update_row new) rows
apply_write (delete id at) rows = update_where (is_row id) (delete_row at) rows
apply_write (delete_children pid at) rows = update_where (is_child_of pid) (delete_row at) rows

unfoldable pub apply_writes : List TxWrite → List Task → List Task
apply_writes [] rows = rows
apply_writes (x ∷ writes) rows = apply_writes writes (apply_write x rows)

-- The row that INSERT makes: the id comes from the sequence.
abbrev pub inserted : ℕ → Task → Task
inserted id task = record task { id = id; deleted_at = none; history_source = [] }

unfoldable pub or_not_found : Option Task → M Task
or_not_found none = raise not_found
or_not_found (some t) = pure t

module _ (e : Env) where
  unfoldable pub insert_task : Task → M ℕ
  insert_task task = do
    outside e
    id ← gets (λ w. w.next_id)
    modify (λ w. record w { tasks = w.tasks ++ inserted id task ∷ []; next_id = id + 1 })
    pure id

  -- GetTaskByID
  unfoldable pub get_task : ℕ → M Task
  get_task id = do
    outside e
    rows ← gets (λ w. w.tasks)
    or_not_found (first_row (λ row. is_row id row && not (has_status row status_done)) rows)

  -- GetTaskByIDWithoutStatusFilter
  unfoldable pub get_task_any_status : ℕ → M Task
  get_task_any_status id = do
    outside e
    rows ← gets (λ w. w.tasks)
    or_not_found (first_row (is_row id) rows)

  -- GetChildTasksByParentID
  unfoldable pub get_child_tasks : ℕ → M (List Task)
  get_child_tasks pid = do outside e; gets (λ w. filter (is_child_of pid) w.tasks)

  -- UpdateTask
  unfoldable pub update_task : Task → M (Unit {0})
  update_task task = do
    outside e
    modify (λ w. record w { tasks = apply_write (update task) w.tasks })

  -- DeleteTask
  unfoldable pub delete_task : ℕ → M (Unit {0})
  delete_task id = do
    at ← time_now e
    outside e
    modify (λ w. record w { tasks = apply_write (delete id at) w.tasks })

  -- DeleteChildTasks
  unfoldable delete_child_tasks : ℕ → M (Unit {0})
  delete_child_tasks pid = do
    at ← time_now e
    outside e
    modify (λ w. record w { tasks = apply_write (delete_children pid at) w.tasks })

  unfoldable pub tx_write : TxWrite → M (Unit {0})
  tx_write x = do outside e; modify (λ w. record w { pending = w.pending ++ x ∷ [] })

  -- UpdateTaskWithTx
  unfoldable pub update_task_tx : Task → M (Unit {0})
  update_task_tx task = tx_write (update task)

  -- DeleteTaskWithTx
  unfoldable pub delete_task_tx : ℕ → M (Unit {0})
  delete_task_tx id = do at ← time_now e; tx_write (delete id at)

  -- DeleteChildTasksWithTx
  unfoldable pub delete_child_tasks_tx : ℕ → M (Unit {0})
  delete_child_tasks_tx pid = do at ← time_now e; tx_write (delete_children pid at)

  -- CreateTaskHistory
  unfoldable pub create_task_history : TaskHistory → M (Unit {0})
  create_task_history h = do outside e; modify (λ w. record w { history = w.history ++ h ∷ [] })
