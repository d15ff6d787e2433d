-- ===== src/Service/World/Keeps.antt =====
-- Invariants of methods: one rule for each way to build a method of the task service.
use goreminder.Prelude.{◌≡◌, refl, Bool, true, false, if◌then◌else◌}
use mathlib.Core.Path.{subst, sym}
use goreminder.Errors.{Err, Outcome, ok, err, panicked}
use goreminder.Service.World.{
  Env, World, M, pure, raise, lift, attempt, map_err, settle, gets, modify, ◌>>=◌, continue,
  best_effort, ignore, tick, outside, time_now,
}

-- `m` keeps `P`, however it ends.
pub record Keeps {A : Type 0} (P : World → Type 0) (m : M A) : Type 0 where
  pub at : (w : World) → P w → P (m w).1

settle-same : {A : Type 0} (r : Outcome A) (w : World) → (settle r w).1 ≡ w
settle-same (ok a) w = refl
settle-same (err x) w = refl
settle-same panicked w = refl

module _ {A : Type 0} {P : World → Type 0} where
  pub Keeps-lift : (outcome : Outcome A) → Keeps P (lift outcome)
  unfolding lift
  Keeps-lift outcome = record { at = λ w before. before }

  pub Keeps-raise : (x : Err) → Keeps P (raise {A = A} x)
  unfolding raise
  Keeps-raise x = record { at = λ w before. before }

  pub Keeps-pure : (a : A) → Keeps P (pure a)
  unfolding pure
  Keeps-pure a = record { at = λ w before. before }

  pub Keeps-attempt : (m : M A) → Keeps P m → Keeps P (attempt m)
  unfolding attempt
  Keeps-attempt m k = record {
    at = λ w h. let (r, w') = m w in subst P (sym (settle-same r w')) (k.at w h);
  }

  pub Keeps-map_err : (f : Err → Err) (m : M A) → Keeps P m → Keeps P (map_err f m)
  unfolding map_err
  Keeps-map_err f m k = record { at = λ w h. k.at w h }

  pub Keeps-gets : (f : World → A) → Keeps P (gets f)
  unfolding gets
  Keeps-gets f = record { at = λ w h. h }

  pub Keeps-best_effort : (m : M A) → Keeps P m → Keeps P (best_effort m)
  unfolding best_effort
  Keeps-best_effort m k = record { at = λ w h. go (m w).0 (m w).1 (k.at w h) }
    where
      go : (r : Outcome A) (w : World) → P w → P (ignore r w).1
      go (ok a) w h = h
      go (err x) w h = h
      go panicked w h = h

  -- each branch may use what the test gave
  pub Keeps-if :
      (test : Bool) (m n : M A)
      → (test ≡ true → Keeps P m)
      → (test ≡ false → Keeps P n)
      → Keeps P (if test then m else n)
  Keeps-if true m n on_yes on_no = on_yes refl
  Keeps-if false m n on_yes on_no = on_no refl

pub Keeps-modify :
    {P : World → Type 0} (f : World → World) → ((w : World) → P w → P (f w)) → Keeps P (modify f)
unfolding modify
Keeps-modify f k = record { at = k }

module _ {A B : Type 0} {P : World → Type 0} where
  Keeps-continue :
      (r : Outcome A) (f : A → M B) → ((a : A) → Keeps P (f a)) → Keeps P (continue r f)
  Keeps-continue (ok a) f kf = kf a
  Keeps-continue (err x) f kf = record { at = λ w h. h }
  Keeps-continue panicked f kf = record { at = λ w h. h }

  pub Keeps-bind :
      (m : M A) (f : A → M B) → Keeps P m → ((a : A) → Keeps P (f a)) → Keeps P (m >>= f)
  unfolding ◌>>=◌
  Keeps-bind m f first rest = record {
    at = λ w before. (Keeps-continue (m w).0 f rest).at (m w).1 (first.at w before);
  }

module _ {P : World → Type 0} (e : Env) (ticks : (w : World) → P w → P (tick w)) where
  pub Keeps-outside : Keeps P (outside e)
  unfolding outside
  Keeps-outside = record { at = ticks }

  pub Keeps-time_now : Keeps P (time_now e)
  unfolding time_now
  Keeps-time_now = record { at = ticks }

module _ {A B : Type 0} {P : World → Type 0} where
  pub Keeps-then : (m : M A) (n : M B) → Keeps P m → Keeps P n → Keeps P (m >>= λ _. n)
  Keeps-then m n km kn = Keeps-bind m (λ _. n) km (λ _. kn)

pub ruleset keeps_rules = (
  Keeps-pure, Keeps-raise, Keeps-lift, Keeps-gets, Keeps-attempt, Keeps-map_err, Keeps-best_effort,
  Keeps-if, Keeps-then, Keeps-bind,
)
