-- ===== src/Queue.antt =====
-- pkg/queue/events.go: task events and the Celery messages that workers read.
use goreminder.Prelude.{ℕ, Bool, Option, none, some, List, [], ◌∷◌, if◌then◌else◌}
use goreminder.Prelude.Int.{ℤ, pos, ltb_ℤ}
use goreminder.Text.{Text, codes}
use goreminder.Clock.{Time}

-- `other_type` is a type that is neither of the two constants.
pub data TaskEventType : Type 0 where
  schedule_task delete_task : TaskEventType
  other_type : Text → TaskEventType

pub record TaskEvent : Type 0 where
  pub type : TaskEventType
  pub task_id : ℕ
  pub user_id : ℕ
  pub messenger_name : Text
  pub chat_id : Text
  pub title : Text
  pub description : Text
  pub start_date : Option Time
  pub cron_expression : Option Text
  pub requires_confirmation : Bool
  pub pre_remind_before_seconds : Option ℤ
  pub rrule : Option Text

-- An argument of a message: an `interface{}` value, where `null` is nil.
pub data Arg : Type 0 where
  text : Text → Arg
  number : ℕ → Arg
  seconds : ℤ → Arg
  flag : Bool → Arg
  time_pointer : Option Time → Arg
  text_pointer : Option Text → Arg
  null : Arg

pub record TaskMessage : Type 0 where
  pub task : Text
  pub args : List Arg

abbrev positive_arg : ℤ → Arg
positive_arg n = if ltb_ℤ (pos 0) n then seconds n else null

abbrev pub pre_remind_arg : Option ℤ → Arg
pre_remind_arg none = null
pre_remind_arg (some n) = positive_arg n

abbrev message_of : TaskEventType → TaskEvent → TaskMessage
message_of schedule_task e = record {
  task = codes "worker.schedule_task";
  args =
      text e.messenger_name
      ∷ text e.chat_id
      ∷ number e.task_id
      ∷ text e.title
      ∷ text e.description
      ∷ time_pointer e.start_date
      ∷ text_pointer e.cron_expression
      ∷ flag e.requires_confirmation
      ∷ pre_remind_arg e.pre_remind_before_seconds
      ∷ text_pointer e.rrule
      ∷ [];
}
message_of delete_task e = record {
  task = codes "worker.delete_task";
  args = number e.task_id ∷ text e.messenger_name ∷ [];
}
message_of (other_type name) e = record {
  task = name;
  args =
      number e.task_id
      ∷ text e.messenger_name
      ∷ text e.chat_id
      ∷ text e.title
      ∷ text e.description
      ∷ time_pointer e.start_date
      ∷ text_pointer e.cron_expression
      ∷ flag e.requires_confirmation
      ∷ text_pointer e.rrule
      ∷ [];
}

unfoldable pub to_task_message : TaskEvent → TaskMessage
to_task_message e = message_of e.type e
