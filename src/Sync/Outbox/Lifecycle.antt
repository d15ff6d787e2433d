-- ===== src/Sync/Outbox/Lifecycle.antt =====
-- The life of an outbox row, and that ProcessOutbox (internal/service/calendar_sync_service.go)
-- keeps to it.
pub mod Claimed
pub mod Settled
pub mod Refines
pub mod Tries
use goreminder.Prelude.{ℕ, ◌+◌, ◌≡◌, Bool, true, false, List, [], ◌∷◌, All, ltb, leb, ◌==◌}
use goreminder.Errors.{Err}
use goreminder.Clock.{Time}
use goreminder.Sync.World.{SyncOutbox, processing, done}
use goreminder.Sync.Rows.{is_pending, is_processing, with_status, retried, gave_up}

-- A row is claimed while it is pending; while it is processed it is done, is tried again if it was
-- tried less than eight times, or fails.
pub data Step : SyncOutbox → SyncOutbox → Type 0 where
  claim : (o : SyncOutbox) → is_pending o.status ≡ true → Step o (with_status processing o)
  finish : (o : SyncOutbox) → is_processing o.status ≡ true → Step o (with_status done o)
  retry :
      (o : SyncOutbox) (at : Time) (x : Err)
      → is_processing o.status ≡ true
      → ltb (o.attempts + 1) 8 ≡ true
      → Step o (retried (o.attempts + 1) at x o)
  give_up :
      (o : SyncOutbox) (x : Err)
      → is_processing o.status ≡ true
      → leb 8 (o.attempts + 1) ≡ true
      → Step o (gave_up x o)

pub data Steps : SyncOutbox → SyncOutbox → Type 0 where
  stay : (o : SyncOutbox) → Steps o o
  step : (o p q : SyncOutbox) → Steps o p → Step p q → Steps o q

-- No two rows have one id.
abbrev pub Unique : List SyncOutbox → Type 0
Unique [] = Unit
Unique (o ∷ rows) = All (λ p. (p.id == o.id) ≡ false) rows × Unique rows

-- each row went on from the row that stood in its place
abbrev pub Evolved : List SyncOutbox → List SyncOutbox → Type 0
Evolved [] [] = Unit
Evolved [] (p ∷ ps) = ⊥
Evolved (o ∷ os) [] = ⊥
Evolved (o ∷ os) (p ∷ ps) = Steps o p × Evolved os ps

-- a row of an item that is still to be worked off is being processed, with the item's attempts
abbrev pub Awaits : List SyncOutbox → SyncOutbox → Type 0
Awaits items o =
    All (λ i. (i.id == o.id) ≡ true → (is_processing o.status ≡ true) × (i.attempts ≡ o.attempts))
      items

abbrev pub Underway : List SyncOutbox → List SyncOutbox → List SyncOutbox → Type 0
Underway before items rows = Evolved before rows × All (Awaits items) rows × Unique items
