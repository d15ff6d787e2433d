-- ===== src/Accounts/Lookups.antt =====
-- The checks that the services of internal/service share, and activity_tracker.go with the tracker
-- that stores the time in the table of users.
use goreminder.Prelude.{ℕ, Option, none, some, List, null, ltb, if◌then◌else◌}
use goreminder.Text.{Text}
use goreminder.Errors.{not_found_as_unprocessable}
use goreminder.Accounts.World.{
  AccountEnv, Accounts, User, Messenger, MessengerRelatedUser, pure, map_err, best_effort, time_now,
  ◌>>=◌, ◌>>◌,
}
use goreminder.Accounts.Rows

module _ (e : AccountEnv) where
  -- touchUserActivity
  unfoldable pub touch_user_activity : ℕ → Accounts (Unit {0})
  touch_user_activity user =
      if ltb 0 user
      then best_effort (do at ← time_now e; Rows.Users.touch_last_activity e user at)
      else pure tt

  -- a lookup that names the row of the caller's mistake
  unfoldable pub require_user : ℕ → Accounts User
  require_user id = map_err not_found_as_unprocessable (Rows.Users.get_user_by_id e id)

  unfoldable pub require_messenger : ℕ → Accounts Messenger
  require_messenger id =
      map_err not_found_as_unprocessable (Rows.Messengers.get_messenger_by_id e id)

  unfoldable pub require_related_user : ℕ → Accounts MessengerRelatedUser
  require_related_user id =
      map_err not_found_as_unprocessable (Rows.Messengers.get_messenger_related_user_by_id e id)

  -- `if messengerRelatedUserID != nil { … }`
  unfoldable pub check_related_user : Option ℕ → Accounts (Unit {0})
  check_related_user none = pure tt
  check_related_user (some id) = do require_related_user id; pure tt

  -- The filter of a list method by messengerUserID: `rest` gets the ids, or nil without a filter,
  -- and the answer is `empty` where there are no ids.
  abbrev with_ids : {A : Type 0} → A → (Option (List ℕ) → Accounts A) → List ℕ → Accounts A
  with_ids empty rest ids = if null ids then pure empty else rest (some ids)

  unfoldable pub by_messenger_user :
      {A : Type 0} → Option ℕ → Option Text → A → (Option (List ℕ) → Accounts A) → Accounts A
  by_messenger_user user none empty rest = rest none
  by_messenger_user user (some messenger_user) empty rest =
      if null messenger_user then rest none else do
        ids ←
            Rows.Messengers.get_messenger_related_user_ids_by_messenger_user_id e user
              messenger_user
        with_ids empty rest ids
