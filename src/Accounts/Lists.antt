-- ===== src/Accounts/Lists.antt =====
-- The reads of internal/service that pass on to a repository, and the lists of tasks of
-- task_service.go.
use goreminder.Prelude.{ℕ, Option, none, some, List, [], ◌∷◌}
use goreminder.Prelude.Int.{ℤ}
use goreminder.Text.{Text}
use goreminder.Models.{Task}
use goreminder.Service.Repository
use goreminder.Accounts.World.{
  AccountEnv, Accounts, User, Messenger, MessengerRelatedUser, TaskGroup, Item, DigestSettings,
  service, ◌>>◌,
}
use goreminder.Accounts.Rows
use goreminder.Accounts.Lookups.{require_user, by_messenger_user}
use goreminder.Accounts.Listing.{TaskFilter, list_tasks}

module _ (e : AccountEnv) where
  -- task_group_service.go
  unfoldable pub get_task_group_by_id : ℕ → Accounts TaskGroup
  get_task_group_by_id id = Rows.Groups.get_task_group_by_id e id

  -- backlog_service.go and target_service.go
  unfoldable pub get_backlog_by_id : ℕ → Accounts Item
  get_backlog_by_id id = Rows.Items.get_backlog_by_id e id

  unfoldable pub get_target_by_id : ℕ → Accounts Item
  get_target_by_id id = Rows.Items.get_target_by_id e id

  -- user_service.go
  unfoldable pub get_user : ℕ → Accounts User
  get_user id = Rows.Users.get_user_by_id e id

  unfoldable pub get_all_users : ℤ → ℤ → Text → Accounts (List User × ℕ)
  get_all_users page size order_by = Rows.Users.get_all_users e page size order_by

  -- messenger_service.go
  unfoldable pub get_messenger : ℕ → Accounts Messenger
  get_messenger id = Rows.Messengers.get_messenger_by_id e id

  unfoldable pub get_messenger_id_by_name : Text → Accounts ℕ
  get_messenger_id_by_name name = Rows.Messengers.get_messenger_id_by_name e name

  unfoldable pub get_user_id : Text → Accounts ℕ
  get_user_id messenger_user = Rows.Messengers.get_user_id e messenger_user

  unfoldable pub get_all_messengers : ℤ → ℤ → Text → Accounts (List Messenger × ℕ)
  get_all_messengers page size order_by = Rows.Messengers.get_all_messengers e page size order_by

  unfoldable pub get_all_messenger_related_users :
      ℤ → ℤ → Text → Option ℕ → Option Text → Accounts (List MessengerRelatedUser × ℕ)
  get_all_messenger_related_users page size order_by user chat =
      Rows.Messengers.get_all_messenger_related_users e page size order_by user chat

  -- digest_service.go
  unfoldable pub get_digest_settings : ℕ → Option ℕ → Accounts DigestSettings
  get_digest_settings user messenger = Rows.Digests.get_digest_settings_by_user_id e user messenger

  -- task_service.go
  unfoldable pub get_task : ℕ → Accounts Task
  get_task id = service (Repository.get_task e.base id)

  -- The filter by messenger of GetUserTasks: an id goes before a messenger user.
  abbrev by_related :
      ℕ
      → Option ℕ
      → Option Text
      → (Option (List ℕ) → Accounts (List Task × ℕ))
      → Accounts (List Task × ℕ)
  by_related user (some id) messenger_user rest = rest (some (id ∷ []))
  by_related user none messenger_user rest =
      by_messenger_user e (some user) messenger_user ([], 0) rest

  -- the filters of a request, without those by user, messenger and digest
  unfoldable pub get_user_tasks :
      ℕ → ℤ → ℤ → Text → TaskFilter → Option ℕ → Option Text → Accounts (List Task × ℕ)
  get_user_tasks user page size order_by f related messenger_user = do
    require_user e user
    by_related user related messenger_user (λ ids.
        list_tasks e
          (record f {
            user_id = some user;
            messenger_related_user_ids = ids;
            exclude_skip_digest = none;
          })
          page size order_by)

  -- the filters of a request, without those that GetAllTasks does not have
  unfoldable pub get_all_tasks : ℤ → ℤ → Text → TaskFilter → Accounts (List Task × ℕ)
  get_all_tasks page size order_by f =
      list_tasks e
        (record f {
          created_at_from = none;
          created_at_to = none;
          messenger_related_user_ids = none;
          title = none;
          exclude_skip_digest = none;
        })
        page size order_by
