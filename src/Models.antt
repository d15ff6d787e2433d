-- ===== src/Models.antt =====
-- internal/models: the task row and the requests. Identifiers are serial numbers, so they are
-- natural numbers; a nil pointer is `none`; an instant is a `Time`.
use goreminder.Prelude.{ℕ, Bool, Option, List, [], ◌∷◌, any}
use goreminder.Prelude.Int.{ℤ}
use goreminder.Text.{Text, codes, text_eq}
use goreminder.Clock.{Time}

abbrev pub status_pending : Text
status_pending = codes "pending"

abbrev pub status_scheduled : Text
status_scheduled = codes "scheduled"

abbrev pub status_done : Text
status_done = codes "done"

abbrev pub status_rescheduled : Text
status_rescheduled = codes "rescheduled"

abbrev pub status_postponed : Text
status_postponed = codes "postponed"

abbrev pub status_deleted : Text
status_deleted = codes "deleted"

abbrev pub valid_task_statuses : List Text
valid_task_statuses =
    status_pending ∷ status_scheduled ∷ status_done ∷ status_rescheduled ∷ status_postponed
    ∷ status_deleted ∷ []

-- TaskStatus.IsValid, the test of ValidateTaskStatus
unfoldable pub is_valid_status : Text → Bool
is_valid_status s = any (text_eq s) valid_task_statuses

-- A row of `tasks`. `deleted_at` is null in every row that a query returns.
pub record Task : Type 0 where
  pub id : ℕ
  pub title : Text
  pub description : Text
  pub user_id : ℕ
  pub messenger_related_user_id : Option ℕ
  pub parent_id : Option ℕ
  pub group_id : Option ℕ
  pub start_date : Time
  pub finish_date : Option Time
  pub cron_expression : Option Text
  pub rrule : Option Text
  pub requires_confirmation : Bool
  pub muted : Bool
  pub shift_from_completion : Bool
  pub skip_digest : Bool
  pub pre_remind_before_seconds : Option ℤ
  pub status : Text
  pub deleted_at : Option Time
  pub history_source : Text

pub record MessengerRelatedUser : Type 0 where
  pub user_id : Option ℕ
  pub messenger_id : Option ℕ
  pub chat_id : Text
