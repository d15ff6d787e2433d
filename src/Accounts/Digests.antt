-- ===== src/Accounts/Digests.antt =====
-- internal/service/digest_service.go
pub mod Keys
pub mod States
pub mod Created
pub mod Updated
pub mod Sound
use goreminder.Prelude.{
  ℕ, ◌-◌, ◌%◌, Bool, true, false, Option, none, some, List, [], ◌∷◌, null, if◌then◌else◌,
}
use goreminder.Prelude.Int.{ℤ, pos}
use goreminder.Text.{Text, codes}
use goreminder.Errors.{Outcome, ok, err, panicked, validation, unprocessable_entity, not_found}
use goreminder.Clock.{Time, day}
use goreminder.Models.{Task}
use goreminder.Queue.{Arg, text, number, flag, null as null_arg, TaskMessage}
use goreminder.Service.Publish.{publish}
use goreminder.Accounts.World.{
  AccountEnv, Accounts, User, Item, DigestSettings, MessengerRelatedUser, pure, raise, lift,
  service, attempt, best_effort, time_now, ◌>>=◌, ◌>>◌,
}
use goreminder.Accounts.Rows
use goreminder.Accounts.Lookups.{
  touch_user_activity, require_user, require_related_user, check_related_user, by_messenger_user,
}
use goreminder.Accounts.Listing.{TaskFilter, list_tasks}

pub record DigestSettingsUpdateRequest : Type 0 where
  pub enabled : Option Bool
  pub weekday_time : Option Text
  pub weekend_time : Option Text
  pub messenger_related_user_id : Option ℕ

pub record DigestResponse : Type 0 where
  pub user_id : ℕ
  pub messenger_related_user_id : Option ℕ
  pub chat_id : Option Text
  pub start_date_from : Time
  pub start_date_to : Time
  pub completed_backlogs_count : ℕ
  pub tasks : List Task
  pub targets : List Item
  pub timezone : Text

abbrev number_arg : Option ℕ → Arg
number_arg none = null_arg
number_arg (some n) = number n

abbrev settings_message : Text → DigestSettings → TaskMessage
settings_message name d = record {
  task = name;
  args =
      number d.user_id
      ∷ number_arg d.messenger_related_user_id
      ∷ flag d.enabled
      ∷ text d.weekday_time
      ∷ text d.weekend_time
      ∷ [];
}

abbrev delete_message : DigestSettings → TaskMessage
delete_message d = record {
  task = codes "worker.delete_digest_settings";
  args = number d.user_id ∷ number_arg d.messenger_related_user_id ∷ [];
}

abbrev timezone_of : Option Text → Text
timezone_of none = codes "UTC"
timezone_of (some zone) = if null zone then codes "UTC" else zone

-- the tasks of a digest
abbrev pub digest_filter : ℕ → Option Time → Option Time → TaskFilter
digest_filter user from to = record {
  user_id = some user;
  status = none;
  status_not = none;
  start_date_from = from;
  start_date_to = to;
  created_at_from = none;
  created_at_to = none;
  cron_expression = none;
  cron_expression_is_null = none;
  requires_confirmation = none;
  messenger_related_user_ids = none;
  exclude_cron_with_confirmation = none;
  external_provider = none;
  title = none;
  exclude_skip_digest = some true;
}

module _ (e : AccountEnv) where
  unfoldable pub validate_time_format : Text → Accounts (Unit {0})
  validate_time_format s = if e.parses_time s then pure tt else raise validation

  -- fails if the lookup found settings, or for another reason than that there are none
  abbrev pub check_absent : Outcome DigestSettings → Accounts (Unit {0})
  check_absent (ok d) = raise unprocessable_entity
  check_absent (err not_found) = pure tt
  check_absent (err x) = raise x
  check_absent panicked = lift panicked

  -- an error of the queue is logged
  unfoldable pub notify : TaskMessage → Accounts (Unit {0})
  notify message = best_effort (service (publish e.base message))

  unfoldable pub create_digest_settings : DigestSettings → Accounts ℕ
  create_digest_settings d = do
    require_user e d.user_id
    check_related_user e d.messenger_related_user_id
    validate_time_format d.weekday_time
    validate_time_format d.weekend_time
    existing ←
        attempt
          (Rows.Digests.get_digest_settings_by_user_id e d.user_id d.messenger_related_user_id)
    check_absent existing
    id ← Rows.Digests.create_digest_settings e d
    notify (settings_message (codes "worker.create_digest_settings") d)
    touch_user_activity e d.user_id
    pure id

  abbrev with_enabled : Option Bool → DigestSettings → DigestSettings
  with_enabled none d = d
  with_enabled (some b) d = record d { enabled = b }

  unfoldable pub with_weekday : Option Text → DigestSettings → Accounts DigestSettings
  with_weekday none d = pure d
  with_weekday (some s) d = do validate_time_format s; pure (record d { weekday_time = s })

  unfoldable pub with_weekend : Option Text → DigestSettings → Accounts DigestSettings
  with_weekend none d = pure d
  with_weekend (some s) d = do validate_time_format s; pure (record d { weekend_time = s })

  unfoldable pub with_messenger : Option ℕ → DigestSettings → Accounts DigestSettings
  with_messenger none d = pure d
  with_messenger (some id) d = do
    require_related_user e id
    pure (record d { messenger_related_user_id = some id })

  unfoldable pub update_digest_settings :
      ℕ → Option ℕ → DigestSettingsUpdateRequest → Accounts DigestSettings
  update_digest_settings user messenger request = do
    old ← Rows.Digests.get_digest_settings_by_user_id e user messenger
    a ← with_weekday request.weekday_time (with_enabled request.enabled old)
    b ← with_weekend request.weekend_time a
    new ← with_messenger request.messenger_related_user_id b
    Rows.Digests.update_digest_settings e new
    notify (settings_message (codes "worker.update_digest_settings") new)
    touch_user_activity e user
    pure new

  unfoldable pub delete_digest_settings : ℕ → Option ℕ → Accounts (Unit {0})
  delete_digest_settings user messenger = do
    old ← Rows.Digests.get_digest_settings_by_user_id e user messenger
    Rows.Digests.delete_digest_settings e user messenger
    notify (delete_message old)
    touch_user_activity e user

  unfoldable pub get_all_digest_settings :
      ℤ → ℤ → Text → Option ℕ → Option Text → Accounts (List DigestSettings × ℕ)
  get_all_digest_settings page size order_by user messenger_user =
      by_messenger_user e user messenger_user ([], 0)
        (λ ids. Rows.Digests.get_all_digest_settings e page size order_by user ids)

  -- the backlogs that were completed in the period, if both ends are given
  abbrev completed_count : ℕ → Option Time → Option Time → Accounts ℕ
  completed_count user none to = pure 0
  completed_count user (some from) none = pure 0
  completed_count user (some from) (some to) =
      Rows.Items.get_completed_backlogs_count e user from to

  -- time.Now().In(location).Truncate(24 * time.Hour): a multiple of a day since the zero time
  abbrev start_or_today : Option Time → Accounts Time
  start_or_today (some from) = pure from
  start_or_today none = do now ← time_now e; pure (now - now % day)

  abbrev end_or_now : Option Time → Accounts Time
  end_or_now (some to) = pure to
  end_or_now none = time_now e

  abbrev only_related : List ℕ → Accounts (Option ℕ)
  only_related [] = pure none
  only_related (id ∷ []) = pure (some id)
  only_related (id ∷ next ∷ ids) = raise unprocessable_entity

  -- the messenger-related user, from messenger_user_id where it is not given
  unfoldable pub resolve_related : ℕ → Option ℕ → Option Text → Accounts (Option ℕ)
  resolve_related user (some id) messenger_user = pure (some id)
  resolve_related user none none = pure none
  resolve_related user none (some messenger_user) = if null messenger_user then pure none else do
    ids ←
        Rows.Messengers.get_messenger_related_user_ids_by_messenger_user_id e (some user)
          messenger_user
    only_related ids

  abbrev found_chat : Outcome MessengerRelatedUser → Accounts (Option Text)
  found_chat (ok r) = pure (some r.chat_id)
  found_chat (err x) = pure none
  found_chat panicked = lift panicked

  abbrev chat_of : Option ℕ → Accounts (Option Text)
  chat_of none = pure none
  chat_of (some id) = do
    r ← attempt (Rows.Messengers.get_messenger_related_user_by_id e id)
    found_chat r

  unfoldable pub get_digest :
      ℕ → Option ℕ → Option Text → Option Time → Option Time → Accounts DigestResponse
  get_digest user_id related messenger_user from to = do
    user ← require_user e user_id
    completed ← completed_count user_id from to
    tasks ← list_tasks e (digest_filter user_id from to) (pos 1) (pos 1000) (codes "start_date ASC")
    targets ←
        Rows.Items.get_all_targets e (pos 1) (pos 1000) (codes "created_at DESC") (some user_id)
          none
    start ← start_or_today from
    end ← end_or_now to
    resolved ← resolve_related user_id related messenger_user
    chat ← chat_of resolved
    pure (record {
      user_id = user_id;
      messenger_related_user_id = resolved;
      chat_id = chat;
      start_date_from = start;
      start_date_to = end;
      completed_backlogs_count = completed;
      tasks = tasks.0;
      targets = targets.0;
      timezone = timezone_of user.timezone;
    })
