-- ===== src/Sync/World.antt =====
-- What the calendar synchronisation (internal/service/calendar_sync_service.go) reads and writes, and
-- the monad of its methods. The tables of the task service are `base`; a call of the database, the
-- clock or Google is counted there.
pub mod Rules
pub mod Sound
pub mod Runs
pub mod Leads
use goreminder.Prelude.{ℕ, ◌+◌, Bool, Option, none, some, List}
use goreminder.Prelude.Int.{ℤ}
use goreminder.Text.{Text}
use goreminder.Errors.{Err, Outcome, ok, err, panicked}
use goreminder.Clock.{Time}
use goreminder.Models.{Task}
use goreminder.Calendar.Scope.{DeletePolicy, Direction, Origin}
use goreminder.Service.World.{Env, World, M, outside, settle, ignore, continue as continue_in}
use goreminder.Sync.Event.{Event}

-- An error is kept in place of its text.
pub record TaskSyncLink : Type 0 where
  pub id : ℕ
  pub task_id : ℕ
  pub provider : Text
  pub google_calendar_id : Text
  pub google_event_id : Text
  pub etag : Option Text
  pub google_updated_at : Option Time
  pub origin : Origin
  pub sync_enabled : Bool
  pub export_opt_in : Bool
  pub calendar_binding_id : Option ℕ
  pub duration_seconds : Option ℤ
  pub last_synced_at : Option Time
  pub last_error : Option Err

pub data BindingStatus : Type 0 where
  binding_active binding_error binding_disconnected : BindingStatus

pub record CalendarBinding : Type 0 where
  pub id : ℕ
  pub user_id : ℕ
  pub google_account_id : ℕ
  pub google_calendar_id : Text
  pub calendar_summary : Option Text
  pub direction : Direction
  pub group_id : Option ℕ
  pub messenger_related_user_id : Option ℕ
  pub sync_token : Option Text
  pub last_synced_at : Option Time
  pub last_error : Option Err
  pub status : BindingStatus
  pub delete_policy : DeletePolicy
  pub sync_attempts : ℕ
  pub next_retry_at : Option Time
  pub deleted_at : Option Time

pub data OutboxKind : Type 0 where
  export_upsert export_delete other_kind : OutboxKind

pub data OutboxStatus : Type 0 where
  pending processing done failed : OutboxStatus

-- the JSON of an outbox row, 0 where a number is missing
pub record OutboxPayload : Type 0 where
  pub task_id : ℕ
  pub binding_id : ℕ
  pub link_id : ℕ

-- A payload is `none` where it is not the JSON of one.
pub record SyncOutbox : Type 0 where
  pub id : ℕ
  pub kind : OutboxKind
  pub payload : Option OutboxPayload
  pub attempts : ℕ
  pub next_retry_at : Time
  pub last_error : Option Err
  pub status : OutboxStatus

pub record GoogleAccount : Type 0 where
  pub access_token_enc : Text
  pub refresh_token_enc : Text
  pub revoked_at : Option Time

-- what Google answers to a request for events: a page with the tokens of the next one and of the
-- next synchronisation (empty where there is none), an invalid token, or an error
pub data ListAnswer : Type 0 where
  page : List Event → Text → Text → ListAnswer
  invalid_token : ListAnswer
  list_failed : ListAnswer

pub data RemoteCall : Type 0 where
  list_events : Text → Option Text → Text → RemoteCall
  create_event : Text → Event → RemoteCall
  patch_event : Text → Text → Event → RemoteCall
  delete_event : Text → Text → RemoteCall

pub record SyncEnv : Type 0 where
  pub base : Env
  -- the rows of google_accounts
  pub accounts : ℕ → Option GoogleAccount
  -- tokencrypto's Decrypt and the client factory
  pub decrypt : Text → Option Text
  pub new_client : Text → Text → Option Err
  -- time.ParseInLocation("2006-01-02", _, time.UTC)
  pub parse_date : Text → Option Time
  -- Google's answers, by the number of the call; none is an error, and
  -- `deleted` gives the text of the error
  pub created : ℕ → Option Event
  pub patched : ℕ → Option Event
  pub deleted : ℕ → Option Text
  -- the summary of a calendar
  pub calendar_summary : ℕ → Option Text
  pub default_event_duration_minutes : ℤ
  -- the order in which a map is gone through
  pub map_order : List ℕ → List ℕ

pub record SyncWorld : Type 0 where
  pub base : World
  pub links : List TaskSyncLink
  pub bindings : List CalendarBinding
  pub outbox : List SyncOutbox
  pub remote : List RemoteCall
  pub next_link_id : ℕ
  pub next_outbox_id : ℕ

abbrev pub Sync : Type 0 → Type 0
Sync A = SyncWorld → Outcome A × SyncWorld

abbrev pub with_base : SyncWorld → World → SyncWorld
with_base s w = record s { base = w }

module _ {A : Type 0} where
  unfoldable pub pure : A → Sync A
  pure a s = (ok a, s)

  unfoldable pub lift : Outcome A → Sync A
  lift r s = (r, s)

  abbrev pub raise : Err → Sync A
  raise x = lift (err x)

  -- a method of the task service or of its repositories
  unfoldable pub service : M A → Sync A
  service m s = let (r, w) = m s.base in (r, with_base s w)

  abbrev pub settled : Outcome A → Sync (Outcome A)
  settled panicked s = (panicked, s)
  settled (ok a) s = (ok (ok a), s)
  settled (err x) s = (ok (err x), s)

  unfoldable pub attempt : Sync A → Sync (Outcome A)
  attempt m s = let (r, s') = m s in settled r s'

  unfoldable pub gets : (SyncWorld → A) → Sync A
  gets f s = (ok (f s), s)

unfoldable pub modify : (SyncWorld → SyncWorld) → Sync (Unit {0})
modify f s = (ok tt, f s)

module _ {A B : Type 0} where
  abbrev pub continue : Outcome A → (A → Sync B) → Sync B
  continue (ok a) f s = f a s
  continue (err x) f s = (err x, s)
  continue panicked f s = (panicked, s)

  infixl 10 ◌>>=◌ ◌>>◌
  unfoldable pub ◌>>=◌ : Sync A → (A → Sync B) → Sync B
  ◌>>=◌ m f s = let (r, s') = m s in continue r f s'

  abbrev pub ◌>>◌ : Sync A → Sync B → Sync B
  m >> n = m >>= λ _. n

abbrev dropped : {A : Type 0} → Outcome A → Sync (Unit {0})
dropped panicked s = (panicked, s)
dropped (ok a) s = (ok tt, s)
dropped (err x) s = (ok tt, s)

-- `_ = m()`
unfoldable pub best_effort : {A : Type 0} → Sync A → Sync (Unit {0})
best_effort m s = let (r, s') = m s in dropped r s'

-- a call of the database or of Google, with its number
unfoldable pub call : SyncEnv → Sync ℕ
call e = do n ← gets (λ s. s.base.calls); service (outside e.base); pure n

-- time.Now().UTC()
unfoldable pub time_now : SyncEnv → Sync Time
time_now e = service (goreminder.Service.World.time_now e.base)

unfoldable pub or_not_found : {A : Type 0} → Option A → Sync A
or_not_found none = raise goreminder.Errors.not_found
or_not_found (some a) = pure a
