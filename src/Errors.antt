-- ===== src/Errors.antt =====
-- internal/errors/http.go: the error classes, and the outcome of a function that may fail.
use goreminder.Prelude.{Bool, true, false}

-- `not_shiftable` is errRecurrenceNotShiftable of task_recurrence.go; `other` is an error of no
-- class, such as one of the database or of the broker.
pub data Err : Type 0 where
  not_found validation unprocessable_entity conflict not_shiftable other : Err

-- 4xx-class errors
unfoldable pub is_client_error : Err → Bool
is_client_error not_found = true
is_client_error validation = true
is_client_error unprocessable_entity = true
is_client_error conflict = true
is_client_error not_shiftable = false
is_client_error other = false

-- A lookup that found nothing is the caller's mistake where it names the row.
unfoldable pub not_found_as_unprocessable : Err → Err
not_found_as_unprocessable not_found = unprocessable_entity
not_found_as_unprocessable e = e

-- `panicked` is a Go panic, which no error check of the program sees.
pub data Outcome {ℓ} (A : Type ℓ) : Type ℓ where
  ok : A → Outcome A
  err : Err → Outcome A
  panicked : Outcome A

infixl 5 ◌>>=◌ ◌>>◌
abbrev pub ◌>>=◌ {ℓ κ} : {A : Type ℓ} {B : Type κ} → Outcome A → (A → Outcome B) → Outcome B
ok a >>= f = f a
err e >>= f = err e
panicked >>= f = panicked

abbrev pub ◌>>◌ {ℓ} : {B : Type ℓ} → Outcome (Unit {0}) → Outcome B → Outcome B
m >> k = m >>= λ _. k

-- replaces the error, `if err != nil { return other }`
abbrev pub or_err {ℓ} : {A : Type ℓ} → Err → Outcome A → Outcome A
or_err e (ok a) = ok a
or_err e (err x) = err e
or_err e panicked = panicked

abbrev pub require : Bool → Err → Outcome (Unit {0})
require true e = ok tt
require false e = err e

abbrev pub is_ok {ℓ} : {A : Type ℓ} → Outcome A → Bool
is_ok (ok a) = true
is_ok (err x) = false
is_ok panicked = false
