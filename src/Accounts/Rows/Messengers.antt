-- ===== src/Accounts/Rows/Messengers.antt =====
-- internal/repository/messenger_repository.go. The constraints of the tables are those of
-- migrations/20250111133257_add_messengers_tables.sql.
use goreminder.Prelude.{
  ℕ, Bool, true, ◌&&◌, Option, none, some, List, [], map, null, is_some, not, ◌==◌, if◌then◌else◌,
}
use goreminder.Prelude.Int.{ℤ}
use goreminder.Text.{Text, text_eq}
use goreminder.Errors.{other}
use goreminder.Sync.Rows.{select}
use goreminder.Accounts.World.{
  AccountEnv, Accounts, Messenger, MessengerRelatedUser, Rows, pure, raise, gets, time_now, call,
  ◌>>=◌, ◌>>◌,
}
use goreminder.Accounts.Table.{
  Table, is_live, equals, if_given, insert_unique, get_row, change_rows, get_page,
}

abbrev pub messengers_table : Table Messenger
messengers_table = record {
  rows = λ s. s.messengers;
  store = λ (r : Rows Messenger) s. record s { messengers = r };
}

abbrev pub related_table : Table MessengerRelatedUser
related_table = record {
  rows = λ s. s.related;
  store = λ (r : Rows MessengerRelatedUser) s. record s { related = r };
}

abbrev pub live_related : MessengerRelatedUser → Bool
live_related r = is_live r.deleted_at

-- squirrel.Eq with a pointer: a nil pointer asks for null
abbrev same_number : Option ℕ → Option ℕ → Bool
same_number none column = not (is_some column)
same_number (some n) column = equals n column

-- equality of columns, which null never has
abbrev equal_columns : Option ℕ → Option ℕ → Bool
equal_columns none column = Bool.false
equal_columns (some n) column = equals n column

-- UNIQUE(user_id, messenger_id, chat_id), which deleted rows hold too
abbrev clashes : MessengerRelatedUser → MessengerRelatedUser → Bool
clashes new row =
    equal_columns new.user_id row.user_id
    && equal_columns new.messenger_id row.messenger_id
    && text_eq new.chat_id row.chat_id

abbrev given_chat : Text → MessengerRelatedUser → Bool
given_chat chat r = if null chat then true else text_eq r.chat_id chat

-- an integer column is scanned into an int64: null is an error
abbrev scan_number : Option ℕ → Accounts ℕ
scan_number none = raise other
scan_number (some n) = pure n

module _ (e : AccountEnv) where
  unfoldable pub create_messenger : Messenger → Accounts ℕ
  create_messenger m =
      insert_unique e messengers_table (λ row. text_eq row.name m.name) (λ id. record m { id = id })

  unfoldable pub get_messenger_by_id : ℕ → Accounts Messenger
  get_messenger_by_id id = get_row e messengers_table (λ m. m.id == id)

  unfoldable pub get_messenger_id_by_name : Text → Accounts ℕ
  get_messenger_id_by_name name = do
    m ← get_row e messengers_table (λ m. text_eq m.name name)
    pure m.id

  unfoldable pub create_messenger_related_user : MessengerRelatedUser → Accounts ℕ
  create_messenger_related_user r =
      insert_unique e related_table (clashes r) (λ id. record r { id = id; deleted_at = none })

  unfoldable pub get_messenger_related_user :
      Text → Text → Option ℕ → Option ℕ → Accounts MessengerRelatedUser
  get_messenger_related_user chat messenger_user user messenger = get_row e related_table (λ r.
      live_related r
      && text_eq r.chat_id chat
      && text_eq r.messenger_user_id messenger_user
      && same_number user r.user_id
      && same_number messenger r.messenger_id)

  unfoldable pub get_messenger_related_user_ids_by_messenger_user_id :
      Option ℕ → Text → Accounts (List ℕ)
  get_messenger_related_user_ids_by_messenger_user_id user messenger_user =
      if null messenger_user then pure [] else do
        call e
        rows ← gets (λ s. s.related)
        pure (
            map (λ r. r.id)
              (select
                (λ r.
                  live_related r
                  && text_eq r.messenger_user_id messenger_user
                  && if_given (λ u. equals u r.user_id) user)
                rows.list))

  unfoldable pub get_user_id : Text → Accounts ℕ
  get_user_id messenger_user = do
    r ← get_row e related_table (λ r. live_related r && text_eq r.messenger_user_id messenger_user)
    scan_number r.user_id

  unfoldable pub get_messenger_related_user_by_id : ℕ → Accounts MessengerRelatedUser
  get_messenger_related_user_by_id id =
      get_row e related_table (λ r. live_related r && (r.id == id))

  unfoldable pub delete_messenger_related_user_by_user_id : ℕ → Accounts (Unit {0})
  delete_messenger_related_user_by_user_id user = do
    now ← time_now e
    change_rows e related_table (λ r. live_related r && equals user r.user_id)
        (λ r. record r { deleted_at = some now })

  unfoldable pub get_all_messengers : ℤ → ℤ → Text → Accounts (List Messenger × ℕ)
  get_all_messengers page size order_by =
      get_page e messengers_table e.order_messengers (λ _. true) page size order_by

  unfoldable pub get_all_messenger_related_users :
      ℤ → ℤ → Text → Option ℕ → Option Text → Accounts (List MessengerRelatedUser × ℕ)
  get_all_messenger_related_users page size order_by user chat =
      get_page e related_table e.order_related
        (λ r.
          live_related r
          && if_given (λ u. equals u r.user_id) user
          && if_given (λ c. given_chat c r) chat)
        page size order_by
