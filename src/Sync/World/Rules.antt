-- ===== src/Sync/World/Rules.antt =====
-- Invariants of the methods of the calendar synchronisation, and methods that do not panic.
use goreminder.Prelude.{◌≡◌, refl, Bool, true, false, Option, none, some, arith, if◌then◌else◌}
use mathlib.Core.Path.{subst, sym}
use goreminder.Errors.{Outcome, ok, err, panicked, not_found}
use goreminder.Service.World.{Env, World, M, outside, tick}
use goreminder.Sync.World.{
  SyncEnv, SyncWorld, Sync, with_base, pure, lift, service, attempt, settled, gets, modify, ◌>>=◌,
  continue, best_effort, dropped, call, time_now, or_not_found,
}

-- `m` keeps `P`, however it ends.
pub record Holds {A : Type 0} (P : SyncWorld → Type 0) (m : Sync A) : Type 0 where
  pub at : (s : SyncWorld) → P s → P (m s).1

abbrev pub returned : {A : Type 0} → Outcome A → Bool
returned (ok a) = true
returned (err x) = true
returned panicked = false

-- `m` comes back, with a value or an error.
pub record Calm {A : Type 0} (m : Sync A) : Type 0 where
  pub at : (s : SyncWorld) → returned (m s).0 ≡ true

-- P does not look at the tables of the task service.
pub record Aside (P : SyncWorld → Type 0) : Type 0 where
  pub rebased : (w : World) (s : SyncWorld) → P s → P (with_base s w)

settled-same : {A : Type 0} (r : Outcome A) (s : SyncWorld) → (settled r s).1 ≡ s
settled-same (ok a) s = refl
settled-same (err x) s = refl
settled-same panicked s = refl

dropped-same : {A : Type 0} (r : Outcome A) (s : SyncWorld) → (dropped r s).1 ≡ s
dropped-same (ok a) s = refl
dropped-same (err x) s = refl
dropped-same panicked s = refl

module _ {A : Type 0} {P : SyncWorld → Type 0} where
  pub Holds-pure : (a : A) → Holds P (pure a)
  unfolding pure
  Holds-pure a = record { at = λ s h. h }

  pub Holds-lift : (r : Outcome A) → Holds P (lift r)
  unfolding lift
  Holds-lift r = record { at = λ s h. h }

  pub Holds-gets : (f : SyncWorld → A) → Holds P (gets f)
  unfolding gets
  Holds-gets f = record { at = λ s h. h }

  pub Holds-or_not_found : (o : Option A) → Holds P (or_not_found o)
  unfolding or_not_found
  Holds-or_not_found none = Holds-lift (err not_found)
  Holds-or_not_found (some a) = Holds-pure a

  pub Holds-attempt : (m : Sync A) → Holds P m → Holds P (attempt m)
  unfolding attempt
  Holds-attempt m k = record { at = λ s h. subst P (sym (settled-same (m s).0 (m s).1)) (k.at s h) }

  pub Holds-best_effort : (m : Sync A) → Holds P m → Holds P (best_effort m)
  unfolding best_effort
  Holds-best_effort m k = record {
    at = λ s h. subst P (sym (dropped-same (m s).0 (m s).1)) (k.at s h);
  }

  pub Holds-if :
      (test : Bool) (m n : Sync A)
      → (test ≡ true → Holds P m)
      → (test ≡ false → Holds P n)
      → Holds P (if test then m else n)
  Holds-if true m n km kn = km refl
  Holds-if false m n km kn = kn refl

  pub Holds-service : (m : M A) → Aside P → Holds P (service m)
  unfolding service
  Holds-service m b = record { at = λ s h. b.rebased (m s.base).1 s h }

pub Holds-modify :
    {P : SyncWorld → Type 0} (f : SyncWorld → SyncWorld)
    → ((s : SyncWorld) → P s → P (f s))
    → Holds P (modify f)
unfolding modify
Holds-modify f k = record { at = k }

module _ {A B : Type 0} (P : SyncWorld → Type 0) where
  continue-Holds :
      (r : Outcome A) (f : A → Sync B) → ((a : A) → Holds P (f a)) → Holds P (continue r f)
  continue-Holds (ok a) f k = k a
  continue-Holds (err x) f k = record { at = λ s h. h }
  continue-Holds panicked f k = record { at = λ s h. h }

module _ {A B : Type 0} {P : SyncWorld → Type 0} where
  pub Holds-bind :
      (m : Sync A) (f : A → Sync B) → Holds P m → ((a : A) → Holds P (f a)) → Holds P (m >>= f)
  unfolding ◌>>=◌
  Holds-bind m f km kf = record {
    at = λ s h. (continue-Holds P (m s).0 f kf).at (m s).1 (km.at s h);
  }

  pub Holds-then : (m : Sync A) (n : Sync B) → Holds P m → Holds P n → Holds P (m >>= λ _. n)
  Holds-then m n km kn = Holds-bind m (λ _. n) km (λ _. kn)

module _ (e : SyncEnv) {P : SyncWorld → Type 0} (b : Aside P) where
  pub Holds-call : Holds P (call e)
  unfolding call
  Holds-call = Holds-bind _ _ (Holds-gets _) λ n. Holds-then _ _ (Holds-service _ b) (Holds-pure n)

  pub Holds-time_now : Holds P (time_now e)
  unfolding time_now
  Holds-time_now = Holds-service _ b

module _ {A : Type 0} where
  pub Calm-pure : (a : A) → Calm (pure a)
  unfolding pure
  Calm-pure a = record { at = λ s. refl }

  pub Calm-lift : (r : Outcome A) → returned r ≡ true → Calm (lift r)
  unfolding lift
  Calm-lift r h = record { at = λ s. h }

  pub Calm-gets : (f : SyncWorld → A) → Calm (gets f)
  unfolding gets
  Calm-gets f = record { at = λ s. refl }

  pub Calm-or_not_found : (o : Option A) → Calm (or_not_found o)
  unfolding or_not_found
  Calm-or_not_found none = Calm-lift (err not_found) refl
  Calm-or_not_found (some a) = Calm-pure a

  pub Calm-if : (test : Bool) (m n : Sync A) → Calm m → Calm n → Calm (if test then m else n)
  Calm-if true m n km kn = km
  Calm-if false m n km kn = kn

  dropped-returned :
      (r : Outcome A) (s : SyncWorld) → returned r ≡ true → returned (dropped r s).0 ≡ true
  dropped-returned (ok a) s h = refl
  dropped-returned (err x) s h = refl
  dropped-returned panicked s h = h

  pub Calm-best_effort : (m : Sync A) → Calm m → Calm (best_effort m)
  unfolding best_effort
  Calm-best_effort m k = record { at = λ s. dropped-returned (m s).0 (m s).1 (k.at s) }

  pub Calm-service : (m : M A) → ((w : World) → returned (m w).0 ≡ true) → Calm (service m)
  unfolding service
  Calm-service m k = record { at = λ s. k s.base }

pub Calm-modify : (f : SyncWorld → SyncWorld) → Calm (modify f)
unfolding modify
Calm-modify f = record { at = λ s. refl }

module _ {A B : Type 0} where
  continue-Calm :
      (r : Outcome A) (f : A → Sync B)
      → returned r ≡ true
      → ((a : A) → Calm (f a))
      → Calm (continue r f)
  continue-Calm (ok a) f h k = k a
  continue-Calm (err x) f h k = record { at = λ s. refl }
  continue-Calm panicked f h k = cc

  pub Calm-bind : (m : Sync A) (f : A → Sync B) → Calm m → ((a : A) → Calm (f a)) → Calm (m >>= f)
  unfolding ◌>>=◌
  Calm-bind m f km kf = record { at = λ s. (continue-Calm (m s).0 f (km.at s) kf).at (m s).1 }

  pub Calm-then : (m : Sync A) (n : Sync B) → Calm m → Calm n → Calm (m >>= λ _. n)
  Calm-then m n km kn = Calm-bind m (λ _. n) km (λ _. kn)

module _ (e : SyncEnv) where
  outside-returned : (w : World) → returned (outside e.base w).0 ≡ true
  unfolding outside
  outside-returned w = ground arith

  pub Calm-call : Calm (call e)
  unfolding call
  Calm-call =
      Calm-bind _ _ (Calm-gets _) λ n. Calm-then _ _ (Calm-service _ outside-returned) (Calm-pure n)

  pub Calm-time_now : Calm (time_now e)
  unfolding time_now goreminder.Service.World.time_now
  Calm-time_now = Calm-service _ (λ w. refl)
