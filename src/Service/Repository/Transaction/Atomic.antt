-- ===== src/Service/Repository/Transaction/Atomic.antt =====
-- Methods that keep an invariant when they fail: a transaction keeps the committed rows.
use goreminder.Prelude.{◌≡◌, refl, Bool, true, false, List, arith, if◌then◌else◌}
use goreminder.Errors.{Outcome, ok, err, panicked, is_ok}
use goreminder.Models.{Task}
use goreminder.Service.World.{Env, World, M, pure, outside, modify, ◌>>=◌, continue}
use goreminder.Service.World.Keeps.{Keeps}
use goreminder.Service.World.Ensures.{Total}
use goreminder.Service.Repository.Transaction.{
  rollback, undo_on_failure, guarded, begin, commit, transaction, SameTasks,
}

-- Whenever `m` does not succeed it keeps `P`.
pub record FailsSafe {A : Type 0} (P : World → Type 0) (m : M A) : Type 0 where
  pub at : (w : World) → P w → is_ok (m w).0 ≡ false → P (m w).1

module _ {A : Type 0} {P : World → Type 0} where
  pub FailsSafe-Keeps : (m : M A) → Keeps P m → FailsSafe P m
  FailsSafe-Keeps m k = record { at = λ w h _. k.at w h }

  pub FailsSafe-if :
      (b : Bool) (m n : M A)
      → (b ≡ true → FailsSafe P m)
      → (b ≡ false → FailsSafe P n)
      → FailsSafe P (if b then m else n)
  FailsSafe-if true m n km kn = km refl
  FailsSafe-if false m n km kn = kn refl

  undo-safe :
      ((w : World) → P w → P (rollback w))
      → (r : Outcome A) (w : World) → (is_ok r ≡ false → P w)
      → is_ok (undo_on_failure r w).0 ≡ false
      → P (undo_on_failure r w).1
  undo-safe back (ok a) w h failed = h failed
  undo-safe back (err x) w h failed = back w (h failed)
  undo-safe back panicked w h failed = back w (h failed)

  pub FailsSafe-guarded :
      ((w : World) → P w → P (rollback w)) → (m : M A) → FailsSafe P m → FailsSafe P (guarded m)
  unfolding guarded
  FailsSafe-guarded back m k = record {
    at = λ w h failed. undo-safe back (m w).0 (m w).1 (k.at w h) failed;
  }

module _ {A B : Type 0} {P : World → Type 0} where
  continue-safe :
      (r : Outcome A) (f : A → M B) → ((a : A) → FailsSafe P (f a)) → FailsSafe P (continue r f)
  continue-safe (ok a) f k = k a
  continue-safe (err x) f k = record { at = λ w h _. h }
  continue-safe panicked f k = record { at = λ w h _. h }

  -- the part before the last one keeps `P` whatever comes of it
  pub FailsSafe-bind :
      (m : M A) (f : A → M B) → Keeps P m → ((a : A) → FailsSafe P (f a)) → FailsSafe P (m >>= f)
  unfolding ◌>>=◌
  FailsSafe-bind m f km kf = record {
    at = λ w h failed. (continue-safe (m w).0 f kf).at (m w).1 (km.at w h) failed;
  }

then-pure-safe :
    {A B : Type 0} (P : World → Type 0) (r : Outcome A) (b : B) (w : World)
    → (is_ok r ≡ false → P w)
    → is_ok (continue r (λ _. pure b) w).0 ≡ false
    → P (continue r (λ _. pure b) w).1
unfolding pure
then-pure-safe P (ok a) b w h failed = cc
then-pure-safe P (err x) b w h failed = h failed
then-pure-safe P panicked b w h failed = h failed

module _ {A B : Type 0} {P : World → Type 0} where
  pub FailsSafe-then_pure : (m : M A) (b : B) → FailsSafe P m → FailsSafe P (m >>= λ _. pure b)
  unfolding ◌>>=◌
  FailsSafe-then_pure m b k = record {
    at = λ w h failed. then-pure-safe P (m w).0 b (m w).1 (k.at w h) failed;
  }

module _ (e : Env) (rows : List Task) where
  begin-SameTasks : Keeps (SameTasks rows) (begin e)
  unfolding begin ◌>>=◌ outside modify
  begin-SameTasks = record { at = λ w h. ground arith }

  commit-FailsSafe : FailsSafe (SameTasks rows) (commit e)
  unfolding commit ◌>>=◌ outside modify
  commit-FailsSafe = record { at = λ w h failed. ground arith }

  -- A transaction that does not succeed leaves the committed rows as they were, if its body
  -- writes through the transaction only.
  pub transaction-FailsSafe :
      {A : Type 0} (body : M A)
      → Keeps (SameTasks rows) body
      → FailsSafe (SameTasks rows) (transaction e body)
  unfolding transaction
  transaction-FailsSafe body k = FailsSafe-bind (begin e) _ begin-SameTasks λ _.
      FailsSafe-guarded (λ w h. h) _
        (FailsSafe-bind body _ k (λ a. FailsSafe-then_pure (commit e) a commit-FailsSafe))

then-total-safe :
    {A B : Type 0} (P : World → Type 0) (r : Outcome A) (f : A → M B) (w : World)
    → ((a : A) → Total (f a))
    → (is_ok r ≡ false → P w)
    → is_ok (continue r f w).0 ≡ false
    → P (continue r f w).1
then-total-safe P (ok a) f w t h failed = cc ((t a).at w)
then-total-safe P (err x) f w t h failed = h failed
then-total-safe P panicked f w t h failed = h failed

module _ {A B : Type 0} {P : World → Type 0} where
  -- what follows cannot fail
  pub FailsSafe-then-Total :
      (m : M A) (f : A → M B) → FailsSafe P m → ((a : A) → Total (f a)) → FailsSafe P (m >>= f)
  unfolding ◌>>=◌
  FailsSafe-then-Total m f k t = record {
    at = λ w h failed. then-total-safe P (m w).0 f (m w).1 t (k.at w h) failed;
  }
