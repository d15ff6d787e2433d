-- ===== src/Accounts/Rows/Digests.antt =====
-- internal/repository/digest_settings_repository.go. The constraint of the table is that of
-- migrations/20251212185029_add_digest_settings_table.sql: it lets null pass.
use goreminder.Prelude.{
  ℕ, Bool, true, false, not, ◌&&◌, Option, none, some, List, any, ◌==◌, if◌then◌else◌,
}
use goreminder.Prelude.Int.{ℤ}
use goreminder.Text.{Text}
use goreminder.Errors.{other, not_found}
use goreminder.Sync.Rows.{select, change}
use goreminder.Accounts.World.{
  AccountEnv, Accounts, DigestSettings, Rows, pure, raise, gets, modify, call, ◌>>=◌, ◌>>◌,
}
use goreminder.Accounts.Table.{
  Table, equals, if_given, in_related, insert_unique, get_row, get_page,
}

abbrev pub digests_table : Table DigestSettings
digests_table = record {
  rows = λ s. s.digests;
  store = λ (r : Rows DigestSettings) s. record s { digests = r };
}

-- equality of nullable numbers where null equals null
abbrev pub same : Option ℕ → Option ℕ → Bool
same none none = true
same none (some n) = false
same (some m) none = false
same (some m) (some n) = m == n

-- the settings of a user for a messenger, or for none
abbrev pub is_for : ℕ → Option ℕ → DigestSettings → Bool
is_for user messenger d = (d.user_id == user) && same messenger d.messenger_related_user_id

-- UNIQUE(user_id, messenger_related_user_id)
abbrev pub clashes : ℕ → Option ℕ → DigestSettings → Bool
clashes user none d = false
clashes user (some messenger) d =
    (d.user_id == user) && equals messenger d.messenger_related_user_id

-- the columns that UPDATE sets
abbrev pub update_digest_row : DigestSettings → DigestSettings → DigestSettings
update_digest_row new row = record row {
  enabled = new.enabled;
  weekday_time = new.weekday_time;
  weekend_time = new.weekend_time;
  messenger_related_user_id = new.messenger_related_user_id;
}

module _ (e : AccountEnv) where
  unfoldable pub create_digest_settings : DigestSettings → Accounts ℕ
  create_digest_settings d =
      insert_unique e digests_table (clashes d.user_id d.messenger_related_user_id)
        (λ id. record d { id = id })

  unfoldable pub get_digest_settings_by_user_id : ℕ → Option ℕ → Accounts DigestSettings
  get_digest_settings_by_user_id user messenger = get_row e digests_table (is_for user messenger)

  unfoldable pub get_digest_settings_by_id : ℕ → Accounts DigestSettings
  get_digest_settings_by_id id = get_row e digests_table (λ d. d.id == id)

  unfoldable pub update_digest_settings : DigestSettings → Accounts (Unit {0})
  update_digest_settings d = do
    call e
    rows ← gets (λ s. s.digests)
    (if any (λ x. not (x.id == d.id) && clashes d.user_id d.messenger_related_user_id x) rows.list
        then raise other
        else modify (λ s. record s {
          digests = record rows {
            list = change (λ x. x.id == d.id) (update_digest_row d) rows.list;
          };
        }))

  unfoldable pub get_all_digest_settings :
      ℤ → ℤ → Text → Option ℕ → Option (List ℕ) → Accounts (List DigestSettings × ℕ)
  get_all_digest_settings page size order_by user ids =
      get_page e digests_table e.order_digests
        (λ d. if_given (λ u. d.user_id == u) user && in_related ids d.messenger_related_user_id)
        page size order_by

  unfoldable pub delete_digest_settings : ℕ → Option ℕ → Accounts (Unit {0})
  delete_digest_settings user messenger = do
    call e
    rows ← gets (λ s. s.digests)
    modify (λ s. record s {
      digests = record rows { list = select (λ d. not (is_for user messenger d)) rows.list };
    })
    (if any (is_for user messenger) rows.list then pure tt else raise not_found)
