-- ===== src/Accounts/World.antt =====
-- internal/models and migrations: users, messengers, task groups, backlogs, targets and digest
-- settings, and the monad of the services on them. The tables of the task service are `base`; a
-- call of the database, the clock or the queue is counted there.
pub mod Triples
use goreminder.Prelude.{ℕ, Bool, Option, none, some, List}
use goreminder.Text.{Text}
use goreminder.Errors.{Err, Outcome, ok, err, panicked, not_found}
use goreminder.Clock.{Time}
use goreminder.Models.{Task}
use goreminder.Service.World.{Env, World, M, outside}
use goreminder.Sync.World.{CalendarBinding}

pub record User : Type 0 where
  pub id : ℕ
  pub name : Text
  pub email : Text
  pub password_hash : Text
  pub timezone : Option Text
  pub language_code : Option Text
  pub role : Option Text
  pub last_activity_at : Option Time
  pub deleted_at : Option Time

pub record Messenger : Type 0 where
  pub id : ℕ
  pub name : Text

-- a row of user_messengers
pub record MessengerRelatedUser : Type 0 where
  pub id : ℕ
  pub user_id : Option ℕ
  pub messenger_id : Option ℕ
  pub messenger_user_id : Text
  pub chat_id : Text
  pub deleted_at : Option Time

pub record TaskGroup : Type 0 where
  pub id : ℕ
  pub user_id : ℕ
  pub name : Text
  pub deleted_at : Option Time

-- Backlog and Target: two tables with the same columns
pub record Item : Type 0 where
  pub id : ℕ
  pub title : Text
  pub description : Text
  pub user_id : ℕ
  pub messenger_related_user_id : Option ℕ
  pub completed_at : Option Time
  pub deleted_at : Option Time

pub record DigestSettings : Type 0 where
  pub id : ℕ
  pub user_id : ℕ
  pub messenger_related_user_id : Option ℕ
  pub enabled : Bool
  pub weekday_time : Text
  pub weekend_time : Text

-- a table, oldest row first, and the next number of its sequence
pub record Rows (A : Type 0) : Type 0 where
  pub list : List A
  pub next_id : ℕ

-- The tables' orders are those of `ORDER BY` with a given text, in the query of a given number: rows
-- that tie may come in another order in each query.
pub record AccountEnv : Type 0 where
  pub base : Env
  pub max_users : ℕ
  -- whether the calendar bindings are wired in
  pub has_bindings : Bool
  -- time.Parse("15:04", _) succeeds
  pub parses_time : Text → Bool
  pub order_users : ℕ → Text → List User → List User
  pub order_messengers : ℕ → Text → List Messenger → List Messenger
  pub order_related : ℕ → Text → List MessengerRelatedUser → List MessengerRelatedUser
  pub order_groups : ℕ → Text → List TaskGroup → List TaskGroup
  pub order_items : ℕ → Text → List Item → List Item
  pub order_digests : ℕ → Text → List DigestSettings → List DigestSettings
  pub order_tasks : ℕ → Text → List Task → List Task
  -- the column created_at of tasks, and whether a task has a row of task_sync_links for a provider
  pub task_created_at : ℕ → Time
  pub has_provider : ℕ → Text → Bool

-- `user_purges` are the users whose attachments were purged.
pub record AccountWorld : Type 0 where
  pub base : World
  pub users : Rows User
  pub messengers : Rows Messenger
  pub related : Rows MessengerRelatedUser
  pub groups : Rows TaskGroup
  pub backlogs : Rows Item
  pub targets : Rows Item
  pub digests : Rows DigestSettings
  pub bindings : List CalendarBinding
  pub user_purges : List ℕ

abbrev pub Accounts : Type 0 → Type 0
Accounts A = AccountWorld → Outcome A × AccountWorld

abbrev pub with_base : AccountWorld → World → AccountWorld
with_base s w = record s { base = w }

module _ {A : Type 0} where
  unfoldable pub pure : A → Accounts A
  pure a s = (ok a, s)

  unfoldable pub lift : Outcome A → Accounts A
  lift r s = (r, s)

  abbrev pub raise : Err → Accounts A
  raise x = lift (err x)

  -- a method of the task service or of its repositories
  unfoldable pub service : M A → Accounts A
  service m s = let (r, w) = m s.base in (r, with_base s w)

  abbrev pub rename : (Err → Err) → Outcome A → Outcome A
  rename f (ok a) = ok a
  rename f (err x) = err (f x)
  rename f panicked = panicked

  -- returns another error in place of the error of `m`
  unfoldable pub map_err : (Err → Err) → Accounts A → Accounts A
  map_err f m s = let (r, s') = m s in (rename f r, s')

  abbrev pub settled : Outcome A → Accounts (Outcome A)
  settled panicked s = (panicked, s)
  settled (ok a) s = (ok (ok a), s)
  settled (err x) s = (ok (err x), s)

  -- `if err := m(); err != nil { … }`
  unfoldable pub attempt : Accounts A → Accounts (Outcome A)
  attempt m s = let (r, s') = m s in settled r s'

  unfoldable pub gets : (AccountWorld → A) → Accounts A
  gets f s = (ok (f s), s)

unfoldable pub modify : (AccountWorld → AccountWorld) → Accounts (Unit {0})
modify f s = (ok tt, f s)

module _ {A B : Type 0} where
  abbrev pub continue : Outcome A → (A → Accounts B) → Accounts B
  continue (ok a) f s = f a s
  continue (err x) f s = (err x, s)
  continue panicked f s = (panicked, s)

  infixl 10 ◌>>=◌ ◌>>◌
  unfoldable pub ◌>>=◌ : Accounts A → (A → Accounts B) → Accounts B
  ◌>>=◌ m f s = let (r, s') = m s in continue r f s'

  abbrev pub ◌>>◌ : Accounts A → Accounts B → Accounts B
  m >> n = m >>= λ _. n

-- an error is logged and dropped
unfoldable pub best_effort : {A : Type 0} → Accounts A → Accounts (Unit {0})
best_effort m = attempt m >>= λ _. pure tt

unfoldable pub call : AccountEnv → Accounts (Unit {0})
call e = service (outside e.base)

-- time.Now().UTC()
unfoldable pub time_now : AccountEnv → Accounts Time
time_now e = service (goreminder.Service.World.time_now e.base)

unfoldable pub or_not_found : {A : Type 0} → Option A → Accounts A
or_not_found none = raise not_found
or_not_found (some a) = pure a
