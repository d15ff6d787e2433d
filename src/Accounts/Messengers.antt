-- ===== src/Accounts/Messengers.antt =====
-- internal/service/messenger_service.go
use goreminder.Prelude.{ℕ, Option, none, some, null, if◌then◌else◌}
use goreminder.Text.{Text}
use goreminder.Errors.{other}
use goreminder.Accounts.World.{
  AccountEnv, Accounts, Messenger, MessengerRelatedUser, pure, raise, ◌>>=◌, ◌>>◌,
}
use goreminder.Accounts.Rows
use goreminder.Accounts.Lookups.{touch_user_activity, require_user, require_messenger}

module _ (e : AccountEnv) where
  unfoldable pub create_messenger : Messenger → Accounts ℕ
  create_messenger m = if null m.name then raise other else Rows.Messengers.create_messenger e m

  -- with the user and the messenger of the row
  unfoldable pub create_complete : MessengerRelatedUser → ℕ → ℕ → Accounts ℕ
  create_complete r user messenger = do
    require_user e user
    require_messenger e messenger
    id ← Rows.Messengers.create_messenger_related_user e r
    touch_user_activity e user
    pure id

  abbrev create_with : MessengerRelatedUser → Option ℕ → Option ℕ → Accounts ℕ
  create_with r (some user) (some messenger) =
      if null r.messenger_user_id
      then raise other
      else if null r.chat_id
      then raise other
      else create_complete r user messenger
  create_with r none (some messenger) = raise other
  create_with r (some user) none = raise other
  create_with r none none = raise other

  unfoldable pub create_messenger_related_user : MessengerRelatedUser → Accounts ℕ
  create_messenger_related_user r = create_with r r.user_id r.messenger_id

  abbrev check_user : Option ℕ → Accounts (Unit {0})
  check_user none = pure tt
  check_user (some id) = do require_user e id; pure tt

  abbrev check_messenger : Option ℕ → Accounts (Unit {0})
  check_messenger none = pure tt
  check_messenger (some id) = do require_messenger e id; pure tt

  unfoldable pub get_messenger_related_user :
      Text → Text → Option ℕ → Option ℕ → Accounts MessengerRelatedUser
  get_messenger_related_user chat messenger_user user messenger = do
    check_user user
    check_messenger messenger
    Rows.Messengers.get_messenger_related_user e chat messenger_user user messenger
