-- ===== src/Service/World/Returns.antt =====
-- What a method of the task service returns when it succeeds, whatever the state.
use goreminder.Prelude.{◌≡◌, refl, Bool, true, false, if◌then◌else◌}
use mathlib.Core.Path.{subst, ap}
use goreminder.Errors.{Outcome, ok, err, panicked}
use goreminder.Service.World.{World, M, pure, lift, attempt, settle, ◌>>=◌, continue}
use goreminder.Service.Repository.Transaction.{undo_on_failure, guarded}

abbrev pub OkIn : {A : Type 0} → (A → Type 0) → Outcome A → Type 0
OkIn Q (ok a) = Q a
OkIn Q (err x) = Unit
OkIn Q panicked = Unit

-- Whenever `m` succeeds, its value is in `Q`.
pub record Returns {A : Type 0} (m : M A) (Q : A → Type 0) : Type 0 where
  pub at : (w : World) → OkIn Q (m w).0

module _ {A : Type 0} (Q : A → Type 0) where
  settled-OkIn : (r : Outcome A) (w : World) → OkIn Q r → OkIn (OkIn Q) (settle r w).0
  settled-OkIn (ok a) w q = q
  settled-OkIn (err x) w q = tt
  settled-OkIn panicked w q = tt

  undone-OkIn : (r : Outcome A) (w : World) → OkIn Q r → OkIn Q (undo_on_failure r w).0
  undone-OkIn (ok a) w q = q
  undone-OkIn (err x) w q = tt
  undone-OkIn panicked w q = tt

module _ {A : Type 0} {Q : A → Type 0} where
  pub Returns-ok : (m : M A) → Returns m Q → (w : World) (a : A) → (m w).0 ≡ ok a → Q a
  Returns-ok m k w a e = subst (OkIn Q) e (k.at w)

  pub Returns-pure : (a : A) → Q a → Returns (pure a) Q
  unfolding pure
  Returns-pure a q = record { at = λ w. q }

  pub Returns-lift : (r : Outcome A) → OkIn Q r → Returns (lift r) Q
  unfolding lift
  Returns-lift r q = record { at = λ w. q }

  pub Returns-if :
      (b : Bool) (m n : M A)
      → (b ≡ true → Returns m Q)
      → (b ≡ false → Returns n Q)
      → Returns (if b then m else n) Q
  Returns-if true m n km kn = km refl
  Returns-if false m n km kn = kn refl

  pub Returns-attempt : (m : M A) → Returns m Q → Returns (attempt m) (OkIn Q)
  unfolding attempt
  Returns-attempt m k = record { at = λ w. settled-OkIn Q (m w).0 (m w).1 (k.at w) }

  pub Returns-guarded : (m : M A) → Returns m Q → Returns (guarded m) Q
  unfolding guarded
  Returns-guarded m k = record { at = λ w. undone-OkIn Q (m w).0 (m w).1 (k.at w) }

module _ {A : Type 0} where
  any-OkIn : (r : Outcome A) → OkIn (λ _. Unit) r
  any-OkIn (ok a) = tt
  any-OkIn (err x) = tt
  any-OkIn panicked = tt

  -- nothing is claimed of the value
  pub Returns-any : (m : M A) → Returns m (λ _. Unit)
  Returns-any m = record { at = λ w. any-OkIn (m w).0 }

const-OkIn : {A : Type 0} (C : Type 0) (r : Outcome A) → C → OkIn (λ _. C) r
const-OkIn C (ok a) h = h
const-OkIn C (err x) h = tt
const-OkIn C panicked h = tt

-- what is known before
pub Returns-const : {A : Type 0} {C : Type 0} (m : M A) → C → Returns m (λ _. C)
Returns-const {C = C} m h = record { at = λ w. const-OkIn C (m w).0 h }

module _ {A B : Type 0} (P : A → Type 0) (Q : B → Type 0) where
  continue-OkIn :
      (r : Outcome A) (f : A → M B)
      → OkIn P r
      → ((a : A) → P a → Returns (f a) Q)
      → Returns (continue r f) Q
  continue-OkIn (ok a) f p k = k a p
  continue-OkIn (err x) f p k = record { at = λ w. tt }
  continue-OkIn panicked f p k = record { at = λ w. tt }

module _ {A B : Type 0} {P : A → Type 0} {Q : B → Type 0} where
  pub Returns-bind :
      (m : M A) (f : A → M B)
      → Returns m P
      → ((a : A) → P a → Returns (f a) Q)
      → Returns (m >>= f) Q
  unfolding ◌>>=◌
  Returns-bind m f km kf = record {
    at = λ w. (continue-OkIn P Q (m w).0 f (km.at w) kf).at (m w).1;
  }

module _ {A B : Type 0} {Q : B → Type 0} where
  -- nothing is needed of the first value
  pub Returns-after : (m : M A) (f : A → M B) → ((a : A) → Returns (f a) Q) → Returns (m >>= f) Q
  Returns-after m f k = Returns-bind m f (Returns-any m) (λ a _. k a)

of_ok : {A : Type 0} (r : Outcome A) → OkIn (λ a. r ≡ ok a) r
of_ok (ok a) = refl
of_ok (err x) = tt
of_ok panicked = tt

-- the value of a checked outcome
pub Returns-lift_ok : {A : Type 0} (r : Outcome A) → Returns (lift r) (λ a. r ≡ ok a)
Returns-lift_ok r = Returns-lift r (of_ok r)

-- what the rest of a method does where its first part succeeded
pub run_after :
    {A B : Type 0} (m : M A) (f : A → M B) (w : World) (a : A)
    → (m w).0 ≡ ok a
    → (m >>= f) w ≡ f a (m w).1
unfolding ◌>>=◌
run_after m f w a e = ap (λ r. continue r f (m w).1) e
