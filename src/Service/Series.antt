-- ===== src/Service/Series.antt =====
-- internal/service/task_service.go: the shift of a series that MarkTaskAsDone prepares.
use goreminder.Prelude.{
  ℕ, Bool, true, false, not, ◌&&◌, Option, none, some, List, [], ◌∷◌, ◌++◌, any, ◌==◌,
  if◌then◌else◌,
}
use goreminder.Text.{Text, codes}
use goreminder.Errors.{Err, Outcome, ok, err, panicked, not_found, conflict, not_shiftable}
use goreminder.Clock.{Time, is_zero}
use goreminder.Models.{Task}
use goreminder.Recurrence.Rules.{is_recurrence_parent_with_confirmation}
use goreminder.Recurrence.Shift.{CompletionShift, shift_recurrence_from_completion}
use goreminder.Service.World.{
  Env, Value, text, time, M, pure, raise, lift, attempt, map_err, rename, outside, ◌>>=◌, ◌>>◌,
}
use goreminder.Service.Repository.{get_task_any_status, get_child_tasks}
use goreminder.Service.Publish.{}
use goreminder.Service.Effects.{is_closed, history_of, record_history}

-- preparedCompletionShift; the old values are those of `parent`
pub record PreparedShift : Type 0 where
  pub parent : Task
  pub shifted : CompletionShift

abbrev pub not_found_as_conflict : Err → Err
not_found_as_conflict not_found = conflict
not_found_as_conflict x = x

abbrev pub not_shiftable_as_conflict : Err → Err
not_shiftable_as_conflict not_shiftable = conflict
not_shiftable_as_conflict x = x

unfoldable pub or_conflict : Option ℕ → M ℕ
or_conflict none = raise conflict
or_conflict (some id) = pure id

unfoldable pub require_that : Bool → Err → M (Unit {0})
require_that true x = pure tt
require_that false x = raise x

abbrev or_else : Option Text → Option Text → Option Text
or_else none old = old
or_else (some new) old = some new

-- the parent row of the shifted series
unfoldable pub shifted_parent : PreparedShift → Task
shifted_parent s = record (s.parent) {
  start_date = s.shifted.anchor;
  cron_expression = or_else s.shifted.cron s.parent.cron_expression;
  rrule = or_else s.shifted.rrule s.parent.rrule;
}

-- a parent whose series goes on
abbrev pub is_open_series : Task → Bool
is_open_series parent = not (is_closed parent) && is_recurrence_parent_with_confirmation parent

abbrev optional_text : Text → Option Text → List (Text × Value)
optional_text key none = []
optional_text key (some s) = (key, text s) ∷ []

-- recurrenceHistoryValue
abbrev recurrence_history_value : Task → List (Text × Value)
recurrence_history_value t =
    (codes "start_date", time t.start_date)
      ∷ optional_text (codes "cron_expression") t.cron_expression
    ++ optional_text (codes "rrule") t.rrule

module _ (e : Env) where
  -- syncLinks.GetByTaskID
  unfoldable pub get_sync_link : (ℕ → Bool) → ℕ → M (Unit {0})
  get_sync_link linked id = do outside e; if linked id then pure tt else raise not_found

  unfoldable pub unlinked_of : Outcome (Unit {0}) → M (Unit {0})
  unlinked_of (ok _) = raise conflict
  unlinked_of (err not_found) = pure tt
  unlinked_of (err x) = raise x
  unlinked_of panicked = lift panicked

  unfoldable pub require_unlinked_in : Option (ℕ → Bool) → ℕ → M (Unit {0})
  require_unlinked_in none id = pure tt
  require_unlinked_in (some linked) id = do
    found ← attempt (get_sync_link linked id)
    unlinked_of found

  -- a linked task is in conflict; without the integration nothing is linked
  unfoldable pub require_unlinked : ℕ → M (Unit {0})
  require_unlinked id = require_unlinked_in e.sync_link id

  unfoldable pub prepare_completion_shift : Task → Time → M PreparedShift
  prepare_completion_shift task completed_at = do
    pid ← or_conflict task.parent_id
    parent ← map_err not_found_as_conflict (get_task_any_status e pid)
    require_that (is_open_series parent) conflict
    shifted ← lift (
        rename not_shiftable_as_conflict (
          shift_recurrence_from_completion e.lib parent
            (if is_zero task.start_date then parent.start_date else task.start_date) completed_at))
    require_unlinked parent.id
    children ← get_child_tasks e parent.id
    require_that (not (any (λ c. not (c.id == task.id) && not (is_closed c)) children)) conflict
    pure (record { parent = parent; shifted = shifted })

  unfoldable pub stored_flag : Outcome Task → M Bool
  stored_flag (ok parent) = pure (is_open_series parent && parent.shift_from_completion)
  stored_flag (err not_found) = pure false
  stored_flag (err x) = raise x
  stored_flag panicked = lift panicked

  unfoldable pub flag_of_parent : Option ℕ → M Bool
  flag_of_parent none = pure false
  flag_of_parent (some pid) = do parent ← attempt (get_task_any_status e pid); stored_flag parent

  -- parentStoresCompletionShift
  unfoldable pub parent_stores_completion_shift : Task → M Bool
  parent_stores_completion_shift task = flag_of_parent task.parent_id

  unfoldable pub wants_shift : Option Bool → Task → M Bool
  wants_shift none task = parent_stores_completion_shift task
  wants_shift (some flag) task = pure flag

  unfoldable pub prepared : Bool → Task → Time → M (Option PreparedShift)
  prepared false task now = pure none
  prepared true task now = do shift ← prepare_completion_shift task now; pure (some shift)

  unfoldable pub record_shift : Option PreparedShift → M (Unit {0})
  record_shift none = pure tt
  record_shift (some s) = record_history e (
      history_of s.parent (codes "updated") (recurrence_history_value s.parent)
        (recurrence_history_value (shifted_parent s)))
