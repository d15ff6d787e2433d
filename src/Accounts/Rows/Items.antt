-- ===== src/Accounts/Rows/Items.antt =====
-- internal/repository/backlog_repository.go and target_repository.go
use goreminder.Prelude.{
  ℕ, Bool, not, ◌&&◌, Option, none, some, List, is_some, leb, ◌==◌, if◌then◌else◌,
}
use goreminder.Prelude.Int.{ℤ}
use goreminder.Text.{Text}
use goreminder.Clock.{Time}
use goreminder.Accounts.World.{AccountEnv, Accounts, Item, Rows}
use goreminder.Accounts.Table.{
  Table, is_live, if_given, in_related, insert_row, get_row, change_rows, delete_rows, count_rows,
  get_page,
}

abbrev pub backlogs_table : Table Item
backlogs_table = record {
  rows = λ s. s.backlogs;
  store = λ (r : Rows Item) s. record s { backlogs = r };
}

abbrev pub targets_table : Table Item
targets_table = record {
  rows = λ s. s.targets;
  store = λ (r : Rows Item) s. record s { targets = r };
}

abbrev pub live_item : Item → Bool
live_item i = is_live i.deleted_at

abbrev pub is_item : ℕ → Item → Bool
is_item id i = (i.id == id) && live_item i

-- the columns that INSERT sets
abbrev pub new_item : Item → ℕ → Item
new_item i id = record i { id = id; completed_at = none; deleted_at = none }

-- the columns that UPDATE sets
abbrev pub update_item_row : Item → Item → Item
update_item_row new row = record row {
  title = new.title;
  description = new.description;
  completed_at = new.completed_at;
}

abbrev pub delete_item_row : Time → Item → Item
delete_item_row now i = record i { deleted_at = some now }

abbrev pub is_wanted : Option ℕ → Option (List ℕ) → Item → Bool
is_wanted user ids i =
    live_item i && if_given (λ u. i.user_id == u) user && in_related ids i.messenger_related_user_id

-- `completed_at IS NOT NULL` or `IS NULL`
abbrev pub has_completion : Bool → Item → Bool
has_completion wanted i = if wanted then is_some i.completed_at else not (is_some i.completed_at)

abbrev between : Time → Time → Option Time → Bool
between from to none = Bool.false
between from to (some at) = leb from at && leb at to

module _ (e : AccountEnv) where
  unfoldable pub create_backlog : Item → Accounts ℕ
  create_backlog i = insert_row e backlogs_table (new_item i)

  unfoldable pub get_backlog_by_id : ℕ → Accounts Item
  get_backlog_by_id id = get_row e backlogs_table (is_item id)

  unfoldable pub get_all_backlogs :
      ℤ → ℤ → Text → Option ℕ → Option Bool → Option (List ℕ) → Accounts (List Item × ℕ)
  get_all_backlogs page size order_by user completed ids =
      get_page e backlogs_table e.order_items
        (λ i. is_wanted user ids i && if_given (λ c. has_completion c i) completed) page size
        order_by

  unfoldable pub update_backlog : Item → Accounts (Unit {0})
  update_backlog i = change_rows e backlogs_table (is_item i.id) (update_item_row i)

  unfoldable pub delete_backlog : ℕ → Accounts (Unit {0})
  delete_backlog id = delete_rows e backlogs_table (is_item id) delete_item_row

  unfoldable pub get_completed_backlogs_count : ℕ → Time → Time → Accounts ℕ
  get_completed_backlogs_count user from to =
      count_rows e backlogs_table
        (λ i. live_item i && (i.user_id == user) && between from to i.completed_at)

  unfoldable pub create_target : Item → Accounts ℕ
  create_target i = insert_row e targets_table (new_item i)

  unfoldable pub get_target_by_id : ℕ → Accounts Item
  get_target_by_id id = get_row e targets_table (is_item id)

  unfoldable pub get_all_targets :
      ℤ → ℤ → Text → Option ℕ → Option (List ℕ) → Accounts (List Item × ℕ)
  get_all_targets page size order_by user ids =
      get_page e targets_table e.order_items (is_wanted user ids) page size order_by

  unfoldable pub update_target : Item → Accounts (Unit {0})
  update_target i = change_rows e targets_table (is_item i.id) (update_item_row i)

  unfoldable pub delete_target : ℕ → Accounts (Unit {0})
  delete_target id = delete_rows e targets_table (is_item id) delete_item_row
