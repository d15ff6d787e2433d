-- ===== src/Sync/World/Leads.antt =====
-- What the methods of the calendar synchronisation reach, also where they fail.
use goreminder.Prelude.{◌≡◌, refl, Bool, true, false, if◌then◌else◌}
use goreminder.Errors.{Outcome, ok, err, panicked}
use goreminder.Sync.World.{
  SyncWorld, Sync, pure, gets, modify, attempt, settled, best_effort, dropped, ◌>>=◌, continue,
  lift,
}
use goreminder.Sync.World.Rules.{Holds}

abbrev Reached :
    {A : Type 0} → (A → SyncWorld → Type 0) → (SyncWorld → Type 0) → Outcome A → SyncWorld → Type 0
Reached Q R (ok a) s = Q a s
Reached Q R (err x) s = R s
Reached Q R panicked s = R s

-- From a state in `P`, `m` ends in `Q` with its value, or it fails and ends in `R`.
pub record Leads {A : Type 0} (P : SyncWorld → Type 0) (m : Sync A) (Q : A → SyncWorld → Type 0)
    (R : SyncWorld → Type 0) : Type 0 where
  pub at : (s : SyncWorld) → P s → Reached Q R (m s).0 (m s).1

module _ {A : Type 0} (P R : SyncWorld → Type 0) where
  held :
      (r : Outcome A) (s : SyncWorld) → ((s : SyncWorld) → P s → R s) → P s → Reached (λ _. P) R r s
  held (ok a) s k h = h
  held (err x) s k h = k s h
  held panicked s k h = k s h

  dropped-Reached :
      (r : Outcome A) (s : SyncWorld)
      → Reached (λ _. R) R r s
      → Reached (λ _. R) R (dropped r s).0 (dropped r s).1
  dropped-Reached (ok a) s h = h
  dropped-Reached (err x) s h = h
  dropped-Reached panicked s h = h

  attempted-Reached :
      (r : Outcome A) (s : SyncWorld)
      → ((s : SyncWorld) → P s → R s)
      → P s
      → Reached (λ _. P) R (settled r s).0 (settled r s).1
  attempted-Reached (ok a) s k h = h
  attempted-Reached (err x) s k h = h
  attempted-Reached panicked s k h = k s h

module _ {A : Type 0} {P R : SyncWorld → Type 0} where
  pub Leads-Holds : (m : Sync A) → Holds P m → ((s : SyncWorld) → P s → R s) → Leads P m (λ _. P) R
  Leads-Holds m h k = record { at = λ s p. held P R (m s).0 (m s).1 k (h.at s p) }

  pub Leads-attempt :
      (m : Sync A) → Holds P m → ((s : SyncWorld) → P s → R s) → Leads P (attempt m) (λ _. P) R
  unfolding attempt
  Leads-attempt m h k = record { at = λ s p. attempted-Reached P R (m s).0 (m s).1 k (h.at s p) }

  pub Leads-best_effort : (m : Sync A) → Leads P m (λ _. R) R → Leads P (best_effort m) (λ _. R) R
  unfolding best_effort
  Leads-best_effort m h = record { at = λ s p. dropped-Reached P R (m s).0 (m s).1 (h.at s p) }

  pub Leads-pure :
      {Q : A → SyncWorld → Type 0} (a : A) → ((s : SyncWorld) → P s → Q a s) → Leads P (pure a) Q R
  unfolding pure
  Leads-pure a k = record { at = k }

  pub Leads-gets :
      {Q : A → SyncWorld → Type 0} (f : SyncWorld → A)
      → ((s : SyncWorld) → P s → Q (f s) s)
      → Leads P (gets f) Q R
  unfolding gets
  Leads-gets f k = record { at = k }

  pub Leads-if :
      {Q : A → SyncWorld → Type 0} (test : Bool) (m n : Sync A)
      → (test ≡ true → Leads P m Q R)
      → (test ≡ false → Leads P n Q R)
      → Leads P (if test then m else n) Q R
  Leads-if true m n km kn = km refl
  Leads-if false m n km kn = kn refl

pub Leads-modify :
    {P R : SyncWorld → Type 0} {Q : (Unit {0}) → SyncWorld → Type 0} (f : SyncWorld → SyncWorld)
    → ((s : SyncWorld) → P s → Q tt (f s))
    → Leads P (modify f) Q R
unfolding modify
Leads-modify f k = record { at = k }

module _ {A B : Type 0} (Q : A → SyncWorld → Type 0) (Q' : B → SyncWorld → Type 0)
    (R : SyncWorld → Type 0) where
  continue-Leads :
      (r : Outcome A) (f : A → Sync B) (s : SyncWorld)
      → Reached Q R r s
      → ((a : A) → Leads (Q a) (f a) Q' R)
      → Reached Q' R (continue r f s).0 (continue r f s).1
  continue-Leads (ok a) f s h k = (k a).at s h
  continue-Leads (err x) f s h k = h
  continue-Leads panicked f s h k = h

module _ {A B : Type 0} {P R : SyncWorld → Type 0} {Q : A → SyncWorld → Type 0}
    {Q' : B → SyncWorld → Type 0} where
  pub Leads-bind :
      (m : Sync A) (f : A → Sync B)
      → Leads P m Q R
      → ((a : A) → Leads (Q a) (f a) Q' R)
      → Leads P (m >>= f) Q' R
  unfolding ◌>>=◌
  Leads-bind m f km kf = record {
    at = λ s h. continue-Leads Q Q' R (m s).0 f (m s).1 (km.at s h) kf;
  }

-- in each case
pub Reached-end :
    {A : Type 0} {R : SyncWorld → Type 0} {P : SyncWorld → Type 0} (m : Sync A)
    → Leads P m (λ _. R) R
    → (s : SyncWorld) → P s
    → R (m s).1
Reached-end {R = R} m k s h = ended R (m s).0 (m s).1 (k.at s h)
  where
    ended :
        {A : Type 0} (R : SyncWorld → Type 0) (r : Outcome A) (s : SyncWorld)
        → Reached (λ _. R) R r s
        → R s
    ended R (ok a) s h = h
    ended R (err x) s h = h
    ended R panicked s h = h

weaker :
    {A : Type 0} (Q : A → SyncWorld → Type 0) (R R' : SyncWorld → Type 0) (r : Outcome A)
    (s : SyncWorld)
    → ((s : SyncWorld) → R s → R' s)
    → Reached Q R r s
    → Reached Q R' r s
weaker Q R R' (ok a) s k h = h
weaker Q R R' (err x) s k h = k s h
weaker Q R R' panicked s k h = k s h

pub Leads-weaker :
    {A : Type 0} {P R R' : SyncWorld → Type 0} {Q : A → SyncWorld → Type 0} (m : Sync A)
    → ((s : SyncWorld) → R s → R' s)
    → Leads P m Q R
    → Leads P m Q R'
Leads-weaker {R = R} {R' = R'} {Q = Q} m k h = record {
  at = λ s p. weaker Q R R' (m s).0 (m s).1 k (h.at s p);
}

pub Leads-panicked :
    {A : Type 0} {P R : SyncWorld → Type 0} {Q : A → SyncWorld → Type 0}
    → ((s : SyncWorld) → P s → R s)
    → Leads P (lift panicked) Q R
unfolding lift
Leads-panicked k = record { at = k }
