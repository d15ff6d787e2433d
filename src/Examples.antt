-- ===== src/Examples.antt =====
-- Concrete rows, messengers and library functions that the examples run the program on.
pub mod Recurrences
pub mod Tasks
pub mod Calendars
pub mod Updates
pub mod Syncs
pub mod Imports
pub mod Accounts
use goreminder.Prelude.{
  ℕ, ◌+◌, ◌*◌, ◌<◌, ◌≡◌, ◌⊎◌, inr, Bool, true, false, Option, none, some, List, [], ◌∷◌, ltb, ◌==◌,
  arith, if◌then◌else◌,
}
use goreminder.Prelude.Int.{pos}
use goreminder.Text.{Text, codes}
use goreminder.Errors.{Err, other}
use goreminder.Clock.{Time, hour, day}
use goreminder.Models.{Task, MessengerRelatedUser, status_scheduled}
use goreminder.Recurrence.Rules.{Libraries, ROption}
use goreminder.Recurrence.Next.Advance.{Advances}
use goreminder.Service.World.{Env, World}

-- every expression but the empty one fires each hour, and a rule each day
abbrev hourly_parser : Text → Option (Time → Time)
hourly_parser [] = none
hourly_parser (c ∷ s) = some (λ t. t + hour)

abbrev pub hourly : Libraries
hourly = record {
  parse_cron = hourly_parser;
  is_standard_cron = λ s. true;
  parse_rrule = λ s. none;
  new_rrule = λ opt. some (λ t. t + day);
}

-- the value of a parsed function
unfoldable pub value_at : Option (Time → Time) → Time → Time
value_at none t = t
value_at (some f) t = f t

pub value_at-same :
    (o : Option (Time → Time)) (f : Time → Time) (t : Time) → o ≡ some f → value_at o t ≡ f t
unfolding value_at
value_at-same none f t e = cc
value_at-same (some g) f t e = let same : value_at (some g) t ≡ value_at (some f) t = cc in same

hourly-cron_advances :
    (s : Text) (next : Time → Time) (t : Time)
    → hourly.parse_cron s ≡ some next
    → (next t ≡ 0) ⊎ (t < next t)
unfolding value_at
hourly-cron_advances [] next t e = cc
hourly-cron_advances (c ∷ s) next t e =
    let same : t + hour ≡ next t = value_at-same (hourly_parser (c ∷ s)) next t e in
    inr (omega (arith, same))

hourly-rrule_advances :
    (opt : ROption) (rule : Time → Time) (t : Time)
    → hourly.new_rrule opt ≡ some rule
    → (rule t ≡ 0) ⊎ (t < rule t)
unfolding value_at
hourly-rrule_advances opt rule t e =
    let same : t + day ≡ rule t = value_at-same (hourly.new_rrule opt) rule t e in
    inr (omega (arith, same))

pub hourly-Advances : Advances hourly
hourly-Advances = record {
  cron_advances = hourly-cron_advances;
  rrule_advances = hourly-rrule_advances;
}

-- a one-time reminder of user 7 on the tenth day, at 09:00
abbrev pub reminder : Task
reminder = record {
  id = 1;
  title = codes "water the plants";
  description = [];
  user_id = 7;
  messenger_related_user_id = some 3;
  parent_id = none;
  group_id = none;
  start_date = 10 * day + 9 * hour;
  finish_date = none;
  cron_expression = none;
  rrule = none;
  requires_confirmation = false;
  muted = false;
  shift_from_completion = false;
  skip_digest = false;
  pre_remind_before_seconds = some (pos 600);
  status = status_scheduled;
  deleted_at = none;
  history_source = [];
}

-- a weekly series that waits for a confirmation
abbrev pub weekly : Task
weekly = record reminder {
  id = 2;
  cron_expression = some (codes "0 9 * * 1");
  requires_confirmation = true;
}

abbrev chat : MessengerRelatedUser
chat = record { user_id = some 7; messenger_id = some 5; chat_id = codes "42" }

-- the call of this number fails, if any; the clock stands at the twentieth day
abbrev pub env : Option ℕ → Env
env broken = record {
  lib = hourly;
  fault = λ n. elim broken [ none ↦ none | some k ↦ if n == k then some other else none ];
  clock = λ n. 20 * day;
  user_exists = λ id. id == 7;
  related_user = λ id. if id == 3 then some chat else none;
  messenger_name = λ id. if id == 5 then some (codes "telegram") else none;
  sync_link = none;
  is_imported = λ id. false;
  has_db = true;
  purge_on_task_done = false;
  has_export_hook = true;
  has_attachments = false;
}

abbrev pub world : World
world = record {
  tasks = reminder ∷ weekly ∷ [];
  pending = [];
  history = [];
  queue = [];
  exports = [];
  activity = [];
  purges = [];
  next_id = 3;
  calls = 0;
}
