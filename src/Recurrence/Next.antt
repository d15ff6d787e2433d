-- ===== src/Recurrence/Next.antt =====
-- internal/service/task_recurrence.go: the next occurrence of a recurrence rule.
pub mod Advance
use goreminder.Prelude.{not, ◌&&◌, Option, [], none, some, is_some, if◌then◌else◌}
use goreminder.Text.{Text}
use goreminder.Errors.{Outcome, ok, err, panicked, other, ◌>>=◌}
use goreminder.Clock.{Time, is_zero, before}
use goreminder.Models.{Task}
use goreminder.Recurrence.Rules.{
  Libraries, recurrence_field_set, is_recurrence_parent_with_confirmation, has_recurrence_rule,
  anchored_rule,
}

abbrev pub text_or_empty : Option Text → Text
text_or_empty none = []
text_or_empty (some s) = s

abbrev pub or_panic {ℓ} : {A : Type ℓ} → Option A → Outcome A
or_panic none = panicked
or_panic (some a) = ok a

module _ (lib : Libraries) where
  open lib use {parse_cron}

  -- cronexpr.MustParse(s).Next(from)
  unfoldable pub cron_next : Text → Time → Outcome Time
  cron_next s from = do next ← or_panic (parse_cron s); ok (next from)

  unfoldable pub next_start_from_rrule : Time → Text → Time → Outcome Time
  next_start_from_rrule now s start = do
    rule ← anchored_rule lib s start
    if is_zero (rule now) then err other else ok (rule now)

  -- once more where the library's answer lies before `from`
  unfoldable pub advance_if_before : Text → Time → Time → Outcome Time
  advance_if_before s from next = if before next from then cron_next s next else ok next

  unfoldable pub next_recurrence_after : Task → Time → Outcome Time
  next_recurrence_after parent from =
      if recurrence_field_set parent.cron_expression
      then (do
        next ← cron_next (text_or_empty parent.cron_expression) from
        advance_if_before (text_or_empty parent.cron_expression) from next)
      else if recurrence_field_set parent.rrule
      then next_start_from_rrule from (text_or_empty parent.rrule) parent.start_date
      else err other

  -- the last branch: a child follows its parent's rule, and a one-time task has no next start
  unfoldable pub next_from_parent : Task → Option Task → Time → Outcome Time
  next_from_parent task none now = ok 0
  next_from_parent task (some parent) now =
      if is_some task.parent_id && has_recurrence_rule parent
      then next_recurrence_after parent now
      else ok 0

  unfoldable pub next_executable_start_date : Task → Option Task → Time → Outcome Time
  next_executable_start_date task parent now =
      if not (before task.start_date now)
      then ok task.start_date
      else if is_recurrence_parent_with_confirmation task
      then ok 0
      else if recurrence_field_set task.cron_expression
      then cron_next (text_or_empty task.cron_expression) now
      else if recurrence_field_set task.rrule
      then next_start_from_rrule now (text_or_empty task.rrule) task.start_date
      else next_from_parent task parent now
