-- ===== src/Service/World/Ensures.antt =====
-- Postconditions of methods, and methods that always succeed.
use goreminder.Prelude.{◌≡◌, refl, Bool, true, false, if◌then◌else◌}
use goreminder.Errors.{Outcome, ok, err, panicked, is_ok}
use goreminder.Service.World.{World, M, pure, ◌>>=◌, continue}
use goreminder.Service.World.Keeps.{Keeps}

-- From a state in `P`, if `m` succeeds with `a`, the state after it is in `Q a`.
pub record Ensures {A : Type 0} (P : World → Type 0) (m : M A) (Q : A → World → Type 0)
    : Type 0 where
  pub at : (w : World) → P w → (a : A) → (m w).0 ≡ ok a → Q a (m w).1

pub record Total {A : Type 0} (m : M A) : Type 0 where
  pub at : (w : World) → is_ok (m w).0 ≡ true

-- no condition
abbrev pub Anything : World → Type 0
Anything w = Unit

module _ {A : Type 0} {P : World → Type 0} where
  pub Ensures-keeps : (m : M A) → Keeps P m → Ensures P m (λ _. P)
  Ensures-keeps m k = record { at = λ w h a e. k.at w h }

  pub Ensures-if :
      {Q : A → World → Type 0} (b : Bool) (m n : M A)
      → (b ≡ true → Ensures P m Q)
      → (b ≡ false → Ensures P n Q)
      → Ensures P (if b then m else n) Q
  Ensures-if true m n km kn = km refl
  Ensures-if false m n km kn = kn refl

continue-Ensures :
    {A B : Type 0} (Q : A → World → Type 0) (R : B → World → Type 0) (r : Outcome A) (f : A → M B)
    → ((a : A) → Ensures (Q a) (f a) R)
    → (w : World) → ((a : A) → r ≡ ok a → Q a w)
    → (b : B) → (continue r f w).0 ≡ ok b
    → R b (continue r f w).1
continue-Ensures Q R (ok a) f k w q b e = (k a).at w (q a refl) b e
continue-Ensures Q R (err x) f k w q b e = cc
continue-Ensures Q R panicked f k w q b e = cc

module _ {A B : Type 0} {P : World → Type 0} {Q : A → World → Type 0} {R : B → World → Type 0} where
  pub Ensures-bind :
      (m : M A) (f : A → M B)
      → Ensures P m Q
      → ((a : A) → Ensures (Q a) (f a) R)
      → Ensures P (m >>= f) R
  unfolding ◌>>=◌
  Ensures-bind m f km kf = record {
    at = λ w h b e. continue-Ensures Q R (m w).0 f kf (m w).1 (km.at w h) b e;
  }

module _ {A B : Type 0} where
  continue-Total :
      (r : Outcome A) (f : A → M B)
      → is_ok r ≡ true
      → ((a : A) → Total (f a))
      → Total (continue r f)
  continue-Total (ok a) f k t = t a
  continue-Total (err x) f k t = cc
  continue-Total panicked f k t = cc

  pub Total-bind : (m : M A) (f : A → M B) → Total m → ((a : A) → Total (f a)) → Total (m >>= f)
  unfolding ◌>>=◌
  Total-bind m f km kf = record { at = λ w. (continue-Total (m w).0 f (km.at w) kf).at (m w).1 }

pub Total-pure : {A : Type 0} (a : A) → Total (pure a)
unfolding pure
Total-pure a = record { at = λ w. refl }

pub Total-if : {A : Type 0} (b : Bool) (m n : M A) → Total m → Total n → Total (if b then m else n)
Total-if true m n km kn = km
Total-if false m n km kn = kn
