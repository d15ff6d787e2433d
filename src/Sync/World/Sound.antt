-- ===== src/Sync/World/Sound.antt =====
-- Methods of the calendar synchronisation that keep an invariant and come back.
use goreminder.Prelude.{◌≡◌, refl, Bool, true, false, Option, if◌then◌else◌}
use goreminder.Errors.{Err, Outcome, ok, err, panicked}
use goreminder.Service.World.{World, M}
use goreminder.Sync.World.{
  SyncEnv, SyncWorld, Sync, pure, lift, service, attempt, settled, gets, modify, ◌>>=◌, continue,
  best_effort, call, time_now, or_not_found,
}
use goreminder.Sync.World.Rules.{
  Holds, returned, Calm, Aside, Holds-pure, Holds-lift, Holds-gets, Holds-or_not_found,
  Holds-best_effort, Holds-service, Holds-modify, Holds-bind, Holds-call, Holds-time_now, Calm-pure,
  Calm-lift, Calm-gets, Calm-or_not_found, Calm-best_effort, Calm-service, Calm-modify, Calm-bind,
  Calm-call, Calm-time_now,
}

pub record Sound {A : Type 0} (P : SyncWorld → Type 0) (m : Sync A) : Type 0 where
  pub keeps : Holds P m
  pub calm : Calm m

module _ {A : Type 0} {P : SyncWorld → Type 0} where
  pub Sound-pure : (a : A) → Sound P (pure a)
  Sound-pure a = record { keeps = Holds-pure a; calm = Calm-pure a }

  pub Sound-lift : (r : Outcome A) → returned r ≡ true → Sound P (lift r)
  Sound-lift r h = record { keeps = Holds-lift r; calm = Calm-lift r h }

  pub Sound-raise : (x : Err) → Sound P (lift {A = A} (err x))
  Sound-raise x = Sound-lift (err x) refl

  pub Sound-gets : (f : SyncWorld → A) → Sound P (gets f)
  Sound-gets f = record { keeps = Holds-gets f; calm = Calm-gets f }

  pub Sound-or_not_found : (o : Option A) → Sound P (or_not_found o)
  Sound-or_not_found o = record { keeps = Holds-or_not_found o; calm = Calm-or_not_found o }

  pub Sound-best_effort : (m : Sync A) → Sound P m → Sound P (best_effort m)
  Sound-best_effort m k = record {
    keeps = Holds-best_effort m k.keeps;
    calm = Calm-best_effort m k.calm;
  }

  pub Sound-if :
      (test : Bool) (m n : Sync A)
      → (test ≡ true → Sound P m)
      → (test ≡ false → Sound P n)
      → Sound P (if test then m else n)
  Sound-if true m n km kn = km refl
  Sound-if false m n km kn = kn refl

  pub Sound-service :
      (m : M A) → Aside P → ((w : World) → returned (m w).0 ≡ true) → Sound P (service m)
  Sound-service m b h = record { keeps = Holds-service m b; calm = Calm-service m h }

pub Sound-modify :
    {P : SyncWorld → Type 0} (f : SyncWorld → SyncWorld)
    → ((s : SyncWorld) → P s → P (f s))
    → Sound P (modify f)
Sound-modify f k = record { keeps = Holds-modify f k; calm = Calm-modify f }

module _ {A B : Type 0} (P : SyncWorld → Type 0) where
  attempted-keeps :
      (r : Outcome A) (f : Outcome A → Sync B)
      → ((o : Outcome A) → returned o ≡ true → Sound P (f o))
      → (s : SyncWorld) → P s
      → P (continue (settled r s).0 f (settled r s).1).1
  attempted-keeps (ok a) f k s h = (k (ok a) refl).keeps.at s h
  attempted-keeps (err x) f k s h = (k (err x) refl).keeps.at s h
  attempted-keeps panicked f k s h = h

  attempted-calm :
      (r : Outcome A) (f : Outcome A → Sync B)
      → returned r ≡ true
      → ((o : Outcome A) → returned o ≡ true → Sound P (f o))
      → (s : SyncWorld) → returned (continue (settled r s).0 f (settled r s).1).0 ≡ true
  attempted-calm (ok a) f h k s = (k (ok a) refl).calm.at s
  attempted-calm (err x) f h k s = (k (err x) refl).calm.at s
  attempted-calm panicked f h k s = cc

module _ {A B : Type 0} {P : SyncWorld → Type 0} where
  pub Sound-bind :
      (m : Sync A) (f : A → Sync B) → Sound P m → ((a : A) → Sound P (f a)) → Sound P (m >>= f)
  Sound-bind m f km kf = record {
    keeps = Holds-bind m f km.keeps (λ a. (kf a).keeps);
    calm = Calm-bind m f km.calm (λ a. (kf a).calm);
  }

  pub Sound-then : (m : Sync A) (n : Sync B) → Sound P m → Sound P n → Sound P (m >>= λ _. n)
  Sound-then m n km kn = Sound-bind m (λ _. n) km (λ _. kn)

  -- the result that a call hands on is a value or an error
  pub Sound-attempt :
      (m : Sync A) (f : Outcome A → Sync B)
      → Sound P m
      → ((o : Outcome A) → returned o ≡ true → Sound P (f o))
      → Sound P (attempt m >>= f)
  unfolding ◌>>=◌ attempt
  Sound-attempt m f km kf = record {
    keeps = record { at = λ s h. attempted-keeps P (m s).0 f kf (m s).1 (km.keeps.at s h) };
    calm = record { at = λ s. attempted-calm P (m s).0 f (km.calm.at s) kf (m s).1 };
  }

module _ (e : SyncEnv) {P : SyncWorld → Type 0} (b : Aside P) where
  pub Sound-call : Sound P (call e)
  Sound-call = record { keeps = Holds-call e b; calm = Calm-call e }

  pub Sound-time_now : Sound P (time_now e)
  Sound-time_now = record { keeps = Holds-time_now e b; calm = Calm-time_now e }

pub ruleset sound_rules = (
  Sound-pure, Sound-raise, Sound-gets, Sound-or_not_found, Sound-best_effort, Sound-then,
  Sound-bind,
)
