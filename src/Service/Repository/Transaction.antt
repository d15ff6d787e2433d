-- ===== src/Service/Repository/Transaction.antt =====
-- The transactions of internal/service/task_service.go: BeginTxx, a body, Commit, and the deferred
-- Rollback on every other way out.
pub mod Atomic
use goreminder.Prelude.{◌≡◌, refl, Bool, true, false, [], List, arith}
use goreminder.Errors.{Outcome, ok, err, panicked}
use goreminder.Models.{Task}
use goreminder.Service.World.{Env, World, M, pure, outside, modify, ◌>>=◌, ◌>>◌, continue}
use goreminder.Service.World.Keeps.{Keeps}
use goreminder.Service.Repository.{apply_writes}

abbrev pub rollback : World → World
rollback w = record w { pending = [] }

abbrev pub undo_on_failure {ℓ} : {A : Type ℓ} → Outcome A → World → Outcome A × World
undo_on_failure (ok a) w = (ok a, w)
undo_on_failure (err x) w = (err x, rollback w)
undo_on_failure panicked w = (panicked, rollback w)

-- the deferred function: it runs on every way out, and rolls back unless the commit was made
unfoldable pub guarded : {A : Type 0} → M A → M A
guarded m w = let (r, w') = m w in undo_on_failure r w'

module _ (e : Env) where
  unfoldable pub begin : M (Unit {0})
  begin = do outside e; modify rollback

  unfoldable pub commit : M (Unit {0})
  commit = do
    outside e
    modify (λ w. record w { tasks = apply_writes w.pending w.tasks; pending = [] })

  unfoldable pub transaction : {A : Type 0} → M A → M A
  transaction body = do begin; guarded (do a ← body; commit; pure a)

-- The committed rows are `rows`.
abbrev pub SameTasks : List Task → World → Type 0
SameTasks rows w = w.tasks ≡ rows
