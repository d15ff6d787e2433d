-- ===== src/Accounts/Rows/Users.antt =====
-- internal/repository/user_repository.go
use goreminder.Prelude.{ℕ, ◌&&◌, Bool, Option, none, some, List, is_some, ltb, ◌==◌, if◌then◌else◌}
use goreminder.Prelude.Int.{ℤ, pos, negsuc}
use goreminder.Text.{Text, codes}
use goreminder.Clock.{Time}
use goreminder.Sync.Rows.{select, first_n}
use goreminder.Accounts.World.{
  AccountEnv, Accounts, User, Rows, pure, gets, time_now, call, ◌>>=◌, ◌>>◌,
}
use goreminder.Accounts.Table.{
  Table, is_live, insert_row, get_row, change_rows, count_rows, get_page,
}

abbrev pub users_table : Table User
users_table = record { rows = λ s. s.users; store = λ (r : Rows User) s. record s { users = r } }

abbrev pub live_user : User → Bool
live_user u = is_live u.deleted_at

abbrev pub is_user : ℕ → User → Bool
is_user id u = (u.id == id) && live_user u

-- the columns that INSERT sets
abbrev pub new_user : User → ℕ → User
new_user u id = record u { id = id; last_activity_at = none; deleted_at = none }

-- the columns that UPDATE sets
abbrev pub update_user_row : User → User → User
update_user_row new row = record row {
  name = new.name;
  email = new.email;
  password_hash = new.password_hash;
  timezone = new.timezone;
  language_code = new.language_code;
  role = new.role;
}

-- GREATEST(COALESCE(last_activity_at, '-infinity'), at)
abbrev later : Option Time → Time → Time
later none at = at
later (some t) at = if ltb at t then t else at

abbrev recent_limit : ℤ → ℕ
recent_limit (pos n) = if n == 0 then 100 else if ltb 100 n then 100 else n
recent_limit (negsuc n) = 100

module _ (e : AccountEnv) where
  unfoldable pub create_user : User → Accounts ℕ
  create_user u = insert_row e users_table (new_user u)

  unfoldable pub get_user_by_id : ℕ → Accounts User
  get_user_by_id id = get_row e users_table (is_user id)

  unfoldable pub update_user : User → Accounts (Unit {0})
  update_user u = change_rows e users_table (is_user u.id) (update_user_row u)

  -- no error where there is no such user
  unfoldable pub delete_user : ℕ → Accounts (Unit {0})
  delete_user id = do
    now ← time_now e
    change_rows e users_table (is_user id) (λ u. record u { deleted_at = some now })

  unfoldable pub count_active_users : Accounts ℕ
  count_active_users = count_rows e users_table live_user

  unfoldable pub get_all_users : ℤ → ℤ → Text → Accounts (List User × ℕ)
  get_all_users page size order_by =
      get_page e users_table e.order_users live_user page size order_by

  unfoldable pub touch_last_activity : ℕ → Time → Accounts (Unit {0})
  touch_last_activity id at =
      change_rows e users_table (is_user id)
        (λ u. record u { last_activity_at = some (later u.last_activity_at at) })

  -- the users that were active, the latest first
  unfoldable pub list_recent_activity : ℤ → Accounts (List User)
  list_recent_activity limit = do
    n ← gets (λ s. s.base.calls)
    call e
    rows ← gets (λ s. s.users)
    pure (
        first_n (recent_limit limit) (
          e.order_users n (codes "last_activity_at DESC")
            (select (λ u. live_user u && is_some u.last_activity_at) rows.list)))
