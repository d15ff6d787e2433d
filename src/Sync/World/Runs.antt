-- ===== src/Sync/World/Runs.antt =====
-- Methods of the calendar synchronisation that succeed, and what they reach.
use goreminder.Prelude.{ℕ, ◌≡◌, refl, ap, Bool, true, false, none, if◌then◌else◌, arith}
use mathlib.Core.Path.{subst, sym}
use goreminder.Errors.{Outcome, ok, err, panicked}
use goreminder.Service.World.{World, tick, outside}
use goreminder.Sync.World.{
  SyncEnv, SyncWorld, Sync, with_base, pure, service, attempt, settled, gets, modify, ◌>>=◌,
  continue, best_effort, dropped, call, time_now,
}
use goreminder.Sync.World.Rules.{returned, Aside}
use goreminder.Sync.World.Sound.{Sound}

-- From a state in `P`, `m` succeeds, with a value and a state in `Q`.
pub record Runs {A : Type 0} (P : SyncWorld → Type 0) (m : Sync A) (Q : A → SyncWorld → Type 0)
    : Type 0 where
  pub at : (s : SyncWorld) → P s → (a : A) × ((m s).0 ≡ ok a) × Q a (m s).1

module _ {A : Type 0} {P : SyncWorld → Type 0} {Q : A → SyncWorld → Type 0} where
  pub Runs-pure : (a : A) → ((s : SyncWorld) → P s → Q a s) → Runs P (pure a) Q
  unfolding pure
  Runs-pure a k = record { at = λ s h. (a, refl, k s h) }

  pub Runs-gets : (f : SyncWorld → A) → ((s : SyncWorld) → P s → Q (f s) s) → Runs P (gets f) Q
  unfolding gets
  Runs-gets f k = record { at = λ s h. (f s, refl, k s h) }

  pub Runs-if :
      (test : Bool) (m n : Sync A)
      → (test ≡ true → Runs P m Q)
      → (test ≡ false → Runs P n Q)
      → Runs P (if test then m else n) Q
  Runs-if true m n km kn = km refl
  Runs-if false m n km kn = kn refl

pub Runs-modify :
    {P : SyncWorld → Type 0} {Q : (Unit {0}) → SyncWorld → Type 0} (f : SyncWorld → SyncWorld)
    → ((s : SyncWorld) → P s → Q tt (f s))
    → Runs P (modify f) Q
unfolding modify
Runs-modify f k = record { at = λ s h. (tt, refl, k s h) }

module _ {A B : Type 0} (Q : A → SyncWorld → Type 0) (R : B → SyncWorld → Type 0) where
  continue-Runs :
      (r : Outcome A) (f : A → Sync B) (s : SyncWorld) (a : A)
      → r ≡ ok a
      → Q a s
      → ((a' : A) → Runs (Q a') (f a') R)
      → (b : B) × ((continue r f s).0 ≡ ok b) × R b (continue r f s).1
  continue-Runs r f s a same q k =
      subst (λ o. (b : B) × ((continue o f s).0 ≡ ok b) × R b (continue o f s).1) (sym same)
        ((k a).at s q)

  attempted-Runs :
      (P : SyncWorld → Type 0) (r : Outcome A) (f : Outcome A → Sync B) (s : SyncWorld)
      → returned r ≡ true
      → P s
      → ((o : Outcome A) → returned o ≡ true → Runs P (f o) R)
      → let out = continue (settled r s).0 f (settled r s).1 in (b : B) × (out.0 ≡ ok b) × R b out.1
  attempted-Runs P (ok a) f s h p k = (k (ok a) refl).at s p
  attempted-Runs P (err x) f s h p k = (k (err x) refl).at s p
  attempted-Runs P panicked f s h p k = cc

module _ {A B : Type 0} {P : SyncWorld → Type 0} {R : B → SyncWorld → Type 0} where
  pub Runs-bind :
      {Q : A → SyncWorld → Type 0} (m : Sync A) (f : A → Sync B)
      → Runs P m Q
      → ((a : A) → Runs (Q a) (f a) R)
      → Runs P (m >>= f) R
  unfolding ◌>>=◌
  Runs-bind {Q = Q} m f km kf = record {
    at = λ s h. let (a, same, q) = km.at s h in continue-Runs Q R (m s).0 f (m s).1 a same q kf;
  }

  pub Runs-attempt :
      (m : Sync A) (f : Outcome A → Sync B)
      → Sound P m
      → ((o : Outcome A) → returned o ≡ true → Runs P (f o) R)
      → Runs P (attempt m >>= f) R
  unfolding ◌>>=◌ attempt
  Runs-attempt m f k kf = record {
    at = λ s h. attempted-Runs (λ _. P) R P (m s).0 f (m s).1 (k.calm.at s) (k.keeps.at s h) kf;
  }

-- a best-effort call of a method that succeeds
pub Runs-best_effort :
    {A : Type 0} {P R : SyncWorld → Type 0} (m : Sync A)
    → Runs P m (λ _. R)
    → Runs P (best_effort m) (λ _. R)
unfolding best_effort
Runs-best_effort {R = R} m k = record {
  at = λ s h.
      let (a, same, q) = k.at s h in
      (tt, ap (λ r. (dropped r (m s).1).0) same, subst (λ r. R (dropped r (m s).1).1) (sym same) q);
}

call-run :
    (e : SyncEnv) (s : SyncWorld)
    → e.base.fault s.base.calls ≡ none
    → call e s ≡ (ok s.base.calls, with_base s (tick s.base))
unfolding call ◌>>=◌ service outside gets pure
call-run e s q = ground arith

module _ (e : SyncEnv) {P : SyncWorld → Type 0} (b : Aside P) where
  pub Runs-call : ((n : ℕ) → e.base.fault n ≡ none) → Runs P (call e) (λ _. P)
  Runs-call sane = record {
    at = λ s h.
        let run = call-run e s (sane s.base.calls) in
        (
          s.base.calls,
          ap (λ out. out.0) run,
          subst (λ out. P out.1) (sym run) (b.rebased (tick s.base) s h),
        );
  }

  pub Runs-time_now : Runs P (time_now e) (λ _. P)
  unfolding time_now goreminder.Service.World.time_now service
  Runs-time_now = record { at = λ s h. (_, refl, b.rebased (tick s.base) s h) }
