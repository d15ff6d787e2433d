-- ===== src/Accounts/Users.antt =====
-- internal/service/user_service.go
pub mod Limit
use goreminder.Prelude.{
  ℕ, zero, suc, ◌+◌, not, Option, none, some, List, [], ◌∷◌, ◌++◌, null, ltb, leb, if◌then◌else◌,
}
use goreminder.Prelude.Int.{ℤ}
use goreminder.Text.{Text}
use goreminder.Errors.{
  Outcome, ok, err, panicked, other, conflict, unprocessable_entity, not_found_as_unprocessable,
}
use goreminder.Models.{Task}
use goreminder.Queue.{to_task_message}
use goreminder.Service.Publish.{publish, delete_event}
use goreminder.Service.Repository
use goreminder.Accounts.World.{
  AccountEnv, Accounts, User, MessengerRelatedUser, Messenger, pure, raise, lift, service, attempt,
  map_err, best_effort, call, modify, ◌>>=◌, ◌>>◌,
}
use goreminder.Accounts.Rows
use goreminder.Accounts.Lookups.{touch_user_activity}
use goreminder.Accounts.Listing.{get_tasks_by_user_id}

pub record UserUpdateRequest : Type 0 where
  pub name : Option Text
  pub email : Option Text
  pub password_hash : Option Text
  pub timezone : Option Text
  pub language_code : Option Text
  pub role : Option Text

abbrev or_old : Option Text → Text → Text
or_old none old = old
or_old (some new) old = new

abbrev or_old_pointer : Option Text → Option Text → Option Text
or_old_pointer none old = old
or_old_pointer (some new) old = some new

unfoldable pub apply_request : User → UserUpdateRequest → User
apply_request u r = record u {
  name = or_old r.name u.name;
  email = or_old r.email u.email;
  password_hash = or_old r.password_hash u.password_hash;
  timezone = or_old_pointer r.timezone u.timezone;
  language_code = or_old_pointer r.language_code u.language_code;
  role = or_old_pointer r.role u.role;
}

-- tries again only where the attempt failed
abbrev retry : Outcome (Unit {0}) → Accounts (Unit {0}) → Accounts (Unit {0})
retry (ok _) rest = pure tt
retry (err x) rest = rest
retry panicked rest = lift panicked

module _ (e : AccountEnv) where
  abbrev name_of : Option ℕ → Accounts Text
  name_of none = raise unprocessable_entity
  name_of (some id) = do
    m ← map_err not_found_as_unprocessable (Rows.Messengers.get_messenger_by_id e id)
    pure m.name

  unfoldable pub get_messenger_name : ℕ → Accounts Text
  get_messenger_name id = do
    related ← Rows.Messengers.get_messenger_related_user_by_id e id
    name_of related.messenger_id

  -- the limit of users, where there is one
  unfoldable pub check_user_limit : Accounts (Unit {0})
  check_user_limit = if not (ltb 0 e.max_users) then pure tt else do
    active ← Rows.Users.count_active_users e
    if leb e.max_users active then raise conflict else pure tt

  unfoldable pub create_user : User → Accounts ℕ
  create_user u =
      if null u.name
      then raise other
      else do check_user_limit; id ← Rows.Users.create_user e u; touch_user_activity e id; pure id

  unfoldable pub update_user : ℕ → UserUpdateRequest → Accounts User
  update_user id request = do
    old ← Rows.Users.get_user_by_id e id
    Rows.Users.update_user e (apply_request old request)
    touch_user_activity e id
    pure (apply_request old request)

  -- queues the removal of a task's job; a task without a messenger, or whose messenger is not
  -- found, is passed over
  abbrev send_removal : ℕ → Outcome Text → Accounts (Unit {0})
  send_removal id (ok name) = service (publish e.base (to_task_message (delete_event id name)))
  send_removal id (err x) = pure tt
  send_removal id panicked = lift panicked

  unfoldable pub remove_job : Task → Option ℕ → Accounts (Unit {0})
  remove_job task none = pure tt
  remove_job task (some related) = do
    name ← attempt (get_messenger_name related)
    send_removal task.id name

  unfoldable pub delete_tasks : List Task → Accounts (Unit {0})
  delete_tasks [] = pure tt
  delete_tasks (task ∷ tasks) = do
    best_effort (service (Repository.delete_task e.base task.id))
    remove_job task task.messenger_related_user_id
    delete_tasks tasks

  unfoldable pub purge_user : ℕ → Accounts (Unit {0})
  purge_user id = do call e; modify (λ s. record s { user_purges = s.user_purges ++ id ∷ [] })

  unfoldable pub purge_attempts : ℕ → ℕ → Accounts (Unit {0})
  purge_attempts zero id = pure tt
  purge_attempts (suc n) id = do done ← attempt (purge_user id); retry done (purge_attempts n id)

  unfoldable pub purge_user_attachments : ℕ → Accounts (Unit {0})
  purge_user_attachments id = if e.base.has_attachments then purge_attempts 3 id else pure tt

  unfoldable pub delete_user : ℕ → Accounts (Unit {0})
  delete_user id = do
    Rows.Users.get_user_by_id e id
    tasks ← get_tasks_by_user_id e id
    delete_tasks tasks
    Rows.Messengers.delete_messenger_related_user_by_user_id e id
    Rows.Users.delete_user e id
    purge_user_attachments id

  unfoldable pub get_recent_user_activity : ℤ → Accounts (List User)
  get_recent_user_activity limit = Rows.Users.list_recent_activity e limit
