-- ===== src/Accounts/Table.antt =====
-- The statements that the repositories of users, messengers, groups, backlogs, targets and digest
-- settings (internal/repository) share. A list method counts the rows and reads one page of them.
pub mod Rules
pub mod Pages
use goreminder.Prelude.{
  ℕ, zero, suc, ◌+◌, ◌-◌, ◌*◌, ◌%◌, Bool, true, false, not, Option, none, some, List, [], ◌∷◌, ◌++◌,
  any, length, null, is_some, ltb, ◌==◌, if◌then◌else◌,
}
use goreminder.Prelude.Int.{ℤ, pos, negsuc}
use goreminder.Text.{Text, codes}
use goreminder.Errors.{other, not_found}
use goreminder.Clock.{Time}
use goreminder.Sync.Rows.{find, select, change, first_n}
use goreminder.Accounts.World.{
  AccountEnv, AccountWorld, Accounts, Rows, pure, raise, time_now, gets, modify, call, or_not_found,
  ◌>>=◌, ◌>>◌,
}

-- where a table stands in the database
pub record Table (A : Type 0) : Type 0 where
  pub rows : AccountWorld → Rows A
  pub store : Rows A → AccountWorld → AccountWorld

-- `if page < 1 { page = 1 }`
unfoldable pub page_number : ℤ → ℕ
page_number (pos n) = if n == 0 then 1 else n
page_number (negsuc n) = 1

-- `if pageSize < 1 { pageSize = 50 }`
unfoldable pub page_limit : ℤ → ℕ
page_limit (pos n) = if n == 0 then 50 else n
page_limit (negsuc n) = 50

-- `if orderBy == "" { orderBy = "created_at DESC" }`
unfoldable pub order_or_default : Text → Text
order_or_default order = if null order then codes "created_at DESC" else order

-- the positive numbers of a 64-bit int
abbrev pub int_limit : ℕ
int_limit = 9_223_372_036_854_775_808

unfoldable pub skip_n : {A : Type 0} → ℕ → List A → List A
skip_n zero l = l
skip_n (suc n) [] = []
skip_n (suc n) (a ∷ l) = skip_n n l

-- a condition that is there if the pointer is not nil
abbrev pub if_given : {A : Type 0} → (A → Bool) → Option A → Bool
if_given p none = true
if_given p (some a) = p a

-- `column = value`, false where the column is null
abbrev pub equals : ℕ → Option ℕ → Bool
equals n none = false
equals n (some m) = m == n

-- `column IN (ids)`, left out where the list is nil or empty
abbrev pub is_one_of : List ℕ → Option ℕ → Bool
is_one_of ids none = false
is_one_of ids (some n) = any (λ id. id == n) ids

unfoldable pub in_related : Option (List ℕ) → Option ℕ → Bool
in_related none id = true
in_related (some ids) id = if null ids then true else is_one_of ids id

-- deleted_at IS NULL
abbrev pub is_live : Option Time → Bool
is_live at = not (is_some at)

-- the rows of a page, an error of the database where the offset is not a bigint
unfoldable pub page_rows : {A : Type 0} → ℕ → ℕ → List A → Accounts (List A)
page_rows page size rows =
    let offset : ℕ = (page - 1) * size % (2 * int_limit) in
    if ltb offset int_limit then pure (first_n size (skip_n offset rows)) else raise other

module _ (e : AccountEnv) {A : Type 0} (t : Table A) where
  -- INSERT … RETURNING id
  unfoldable pub insert_row : (ℕ → A) → Accounts ℕ
  insert_row make = do
    call e
    rows ← gets t.rows
    modify (
        t.store (record { list = rows.list ++ make rows.next_id ∷ []; next_id = rows.next_id + 1 }))
    pure rows.next_id

  -- an INSERT that a UNIQUE constraint refuses where there is a row in `clash`
  unfoldable pub insert_unique : (A → Bool) → (ℕ → A) → Accounts ℕ
  insert_unique clash make = do
    rows ← gets t.rows
    (if any clash rows.list then call e >> raise other else insert_row make)

  -- SELECT … WHERE p, the first row
  unfoldable pub get_row : (A → Bool) → Accounts A
  get_row p = do call e; rows ← gets t.rows; or_not_found (find p rows.list)

  -- UPDATE … SET f WHERE p
  unfoldable pub change_rows : (A → Bool) → (A → A) → Accounts (Unit {0})
  change_rows p f = do
    call e
    rows ← gets t.rows
    modify (t.store (record rows { list = change p f rows.list }))

  -- UPDATE … SET deleted_at WHERE p; an error where it found no row
  unfoldable pub delete_rows : (A → Bool) → (Time → A → A) → Accounts (Unit {0})
  delete_rows p f = do
    now ← time_now e
    call e
    rows ← gets t.rows
    modify (t.store (record rows { list = change p (f now) rows.list }))
    (if any p rows.list then pure tt else raise not_found)

  -- SELECT COUNT(*) … WHERE p
  unfoldable pub count_rows : (A → Bool) → Accounts ℕ
  count_rows p = do call e; rows ← gets t.rows; pure (length (select p rows.list))

  -- the body of the methods GetAll…
  unfoldable pub get_page :
      (ℕ → Text → List A → List A) → (A → Bool) → ℤ → ℤ → Text → Accounts (List A × ℕ)
  get_page order p page size order_by = do
    total ← count_rows p
    n ← gets (λ s. s.base.calls)
    call e
    rows ← gets t.rows
    found ←
        page_rows (page_number page) (page_limit size)
          (order n (order_or_default order_by) (select p rows.list))
    pure (found, total)
