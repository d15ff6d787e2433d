-- ===== src/Service/World.antt =====
-- What the task service reads and writes, and the monad of its methods.
--
-- `Env` is what does not change while a method runs: the rows of other tables, the configuration,
-- the libraries, the clock and the faults. Every call of the database, the queue or the clock is
-- numbered; `fault n` is the error of call n, if it fails, and `clock n` its time.
pub mod Keeps
pub mod Ensures
pub mod Returns
use goreminder.Prelude.{ℕ, ◌+◌, Bool, Option, none, some, List, [], ◌∷◌, ◌++◌}
use goreminder.Prelude.Int.{ℤ}
use goreminder.Text.{Text}
use goreminder.Errors.{Err, Outcome, ok, err, panicked}
use goreminder.Clock.{Time}
use goreminder.Models.{Task, MessengerRelatedUser}
use goreminder.Queue.{TaskMessage}
use goreminder.Recurrence.Rules.{Libraries}

pub record Env : Type 0 where
  pub lib : Libraries
  pub fault : ℕ → Option Err
  pub clock : ℕ → Time
  -- the rows of users, user_messengers and messengers that are not deleted
  pub user_exists : ℕ → Bool
  pub related_user : ℕ → Option MessengerRelatedUser
  pub messenger_name : ℕ → Option Text
  -- the lookup of task_sync_links, nil where the calendar integration is disabled
  pub sync_link : Option (ℕ → Bool)
  -- whether task_sync_links has a row of origin "imported" for a task
  pub is_imported : ℕ → Bool
  -- whether the repository can hand out its database handle
  pub has_db : Bool
  pub purge_on_task_done : Bool
  -- whether the calendar export hook is set
  pub has_export_hook : Bool
  -- whether an attachments client is configured
  pub has_attachments : Bool

-- a value of the JSON columns of task_history
pub data Value : Type 0 where
  number : ℕ → Value
  text : Text → Value
  flag : Bool → Value
  time : Time → Value
  seconds : ℤ → Value

pub record TaskHistory : Type 0 where
  pub task_id : ℕ
  pub user_id : ℕ
  pub action : Text
  pub old_value : List (Text × Value)
  pub new_value : List (Text × Value)

-- a write of an open transaction
pub data TxWrite : Type 0 where
  update : Task → TxWrite
  delete : ℕ → Time → TxWrite
  delete_children : ℕ → Time → TxWrite

-- Committed rows; writes of the open transaction; then what was sent out, oldest first.
pub record World : Type 0 where
  pub tasks : List Task
  pub pending : List TxWrite
  pub history : List TaskHistory
  pub queue : List TaskMessage
  pub exports : List (ℕ × Text)
  pub activity : List ℕ
  pub purges : List (ℕ × List ℕ)
  pub next_id : ℕ
  pub calls : ℕ

-- a method: an error and a panic leave the state as they found it so far
abbrev pub M : Type 0 → Type 0
M A = World → Outcome A × World

module _ {A : Type 0} where
  unfoldable pub pure : A → M A
  pure a w = (ok a, w)

  unfoldable pub raise : Err → M A
  raise x w = (err x, w)

  unfoldable pub lift : Outcome A → M A
  lift r w = (r, w)

  abbrev pub settle : Outcome A → M (Outcome A)
  settle panicked w = (panicked, w)
  settle (ok a) w = (ok (ok a), w)
  settle (err x) w = (ok (err x), w)

  -- `if err := m(); err != nil { … }`: the error becomes a value, a panic does not
  unfoldable pub attempt : M A → M (Outcome A)
  attempt m w = let (r, w') = m w in settle r w'

  abbrev pub rename : (Err → Err) → Outcome A → Outcome A
  rename f (ok a) = ok a
  rename f (err x) = err (f x)
  rename f panicked = panicked

  -- returns another error in place of the error of `m`
  unfoldable pub map_err : (Err → Err) → M A → M A
  map_err f m w = let (r, w') = m w in (rename f r, w')

unfoldable pub gets {ℓ} : {A : Type ℓ} → (World → A) → World → Outcome A × World
gets f w = (ok (f w), w)

unfoldable pub modify : (World → World) → M (Unit {0})
modify f w = (ok tt, f w)

module _ {A B : Type 0} where
  abbrev pub continue : Outcome A → (A → M B) → M B
  continue (ok a) f w = f a w
  continue (err x) f w = (err x, w)
  continue panicked f w = (panicked, w)

  infixl 10 ◌>>=◌ ◌>>◌
  unfoldable pub ◌>>=◌ : M A → (A → M B) → M B
  ◌>>=◌ m f w = let (r, w') = m w in continue r f w'

  abbrev pub ◌>>◌ : M A → M B → M B
  m >> n = m >>= λ _. n

abbrev pub ignore : {A : Type 0} → Outcome A → M (Unit {0})
ignore panicked w = (panicked, w)
ignore (ok a) w = (ok tt, w)
ignore (err x) w = (ok tt, w)

-- an error is logged and dropped
unfoldable pub best_effort : {A : Type 0} → M A → M (Unit {0})
best_effort m w = let (r, w') = m w in ignore r w'

abbrev pub tick : World → World
tick w = record w { calls = w.calls + 1 }

abbrev failed : Option Err → Outcome (Unit {0})
failed none = ok tt
failed (some x) = err x

module _ (e : Env) where
  -- a call of the database or of the queue
  unfoldable pub outside : M (Unit {0})
  outside w = (failed (e.fault w.calls), tick w)

  -- time.Now().UTC()
  unfoldable pub time_now : M Time
  time_now w = (ok (e.clock w.calls), tick w)
