-- ===== src/Accounts/World/Triples.antt =====
-- Pre- and postconditions of the services on users, groups, backlogs, targets and digests.
use goreminder.Prelude.{◌≡◌, refl, Bool, true, false, Option, none, some, if◌then◌else◌}
use goreminder.Errors.{Err, Outcome, ok, err, panicked}
use goreminder.Service.World.{World, M, outside}
use goreminder.Accounts.World.{
  AccountEnv, AccountWorld, Accounts, with_base, pure, lift, service, rename, map_err, settled,
  attempt, gets, modify, continue, ◌>>=◌, best_effort, call, or_not_found,
}

abbrev pub Ends :
    {A : Type 0}
    → (A → AccountWorld → Type 0)
    → (AccountWorld → Type 0)
    → Outcome A
    → AccountWorld
    → Type 0
Ends Q E (ok a) s = Q a s
Ends Q E (err x) s = E s
Ends Q E panicked s = E s

-- From a state in `P`, `m` ends in `Q` with its value, or it fails and ends in `E`.
pub record Triple {A : Type 0} (P : AccountWorld → Type 0) (m : Accounts A)
    (Q : A → AccountWorld → Type 0) (E : AccountWorld → Type 0) : Type 0 where
  pub at : (s : AccountWorld) → P s → Ends Q E (m s).0 (m s).1

-- P does not look at the tables of the task service.
pub record Aside (P : AccountWorld → Type 0) : Type 0 where
  pub rebased : (w : World) (s : AccountWorld) → P s → P (with_base s w)

module _ {A : Type 0} (Q : A → AccountWorld → Type 0) (E : AccountWorld → Type 0) where
  renamed :
      (f : Err → Err) (r : Outcome A) (s : AccountWorld) → Ends Q E r s → Ends Q E (rename f r) s
  renamed f (ok a) s h = h
  renamed f (err x) s h = h
  renamed f panicked s h = h

  settled-Ends :
      (r : Outcome A) (s : AccountWorld)
      → Ends Q E r s
      → Ends (λ o. Ends Q E o) E (settled r s).0 (settled r s).1
  settled-Ends (ok a) s h = h
  settled-Ends (err x) s h = h
  settled-Ends panicked s h = h

  weaken :
      (Q' : A → AccountWorld → Type 0) (r : Outcome A) (s : AccountWorld)
      → ((a : A) (s : AccountWorld) → Q a s → Q' a s)
      → Ends Q E r s
      → Ends Q' E r s
  weaken Q' (ok a) s q h = q a s h
  weaken Q' (err x) s q h = h
  weaken Q' panicked s q h = h

module _ {A : Type 0} (P E : AccountWorld → Type 0) where
  either : (r : Outcome A) (s : AccountWorld) → P s → E s → Ends (λ _. P) E r s
  either (ok a) s p x = p
  either (err _) s p x = x
  either panicked s p x = x

  same : (o : Outcome A) (s : AccountWorld) → Ends (λ _. P) P o s → P s
  same (ok a) s h = h
  same (err x) s h = h
  same panicked s h = h

module _ {A B : Type 0} (E : AccountWorld → Type 0) (Q : A → AccountWorld → Type 0)
    (R : B → AccountWorld → Type 0) where
  continue-Ends :
      (r : Outcome A) (f : A → Accounts B)
      → ((a : A) → Triple (Q a) (f a) R E)
      → (s : AccountWorld) → Ends Q E r s
      → Ends R E (continue r f s).0 (continue r f s).1
  continue-Ends (ok a) f k s h = (k a).at s h
  continue-Ends (err x) f k s h = h
  continue-Ends panicked f k s h = h

module _ {A : Type 0} {P E : AccountWorld → Type 0} where
  pub Triple-pure :
      {Q : A → AccountWorld → Type 0} (a : A)
      → ((s : AccountWorld) → P s → Q a s)
      → Triple P (pure a) Q E
  unfolding pure
  Triple-pure a q = record { at = q }

  pub Triple-lift :
      (r : Outcome A) → ((s : AccountWorld) → P s → E s) → Triple P (lift r) (λ _. P) E
  unfolding lift
  Triple-lift r x = record { at = λ s p. either P E r s p (x s p) }

  pub Triple-err :
      {Q : A → AccountWorld → Type 0} (x : Err)
      → ((s : AccountWorld) → P s → E s)
      → Triple P (lift (err x)) Q E
  unfolding lift
  Triple-err x f = record { at = f }

  pub Triple-service :
      (m : M A) → Aside P → ((s : AccountWorld) → P s → E s) → Triple P (service m) (λ _. P) E
  unfolding service
  Triple-service m b x = record {
    at = λ s p.
        let q = b.rebased (m s.base).1 s p in
        either P E (m s.base).0 (with_base s (m s.base).1) q (x (with_base s (m s.base).1) q);
  }

  pub Triple-gets : (f : AccountWorld → A) → Triple P (gets f) (λ a s. P s × (a ≡ f s)) E
  unfolding gets
  Triple-gets f = record { at = λ s p. (p, refl) }

  pub Triple-or_not_found :
      (o : Option A)
      → ((s : AccountWorld) → P s → E s)
      → Triple P (or_not_found o) (λ a s. P s × (o ≡ some a)) E
  unfolding or_not_found pure lift
  Triple-or_not_found none x = record { at = x }
  Triple-or_not_found (some a) x = record { at = λ s p. (p, refl) }

  pub Triple-map_err :
      {Q : A → AccountWorld → Type 0} (f : Err → Err) (m : Accounts A)
      → Triple P m Q E
      → Triple P (map_err f m) Q E
  unfolding map_err
  Triple-map_err {Q} f m k = record { at = λ s p. renamed Q E f (m s).0 (m s).1 (k.at s p) }

  pub Triple-attempt :
      {Q : A → AccountWorld → Type 0} (m : Accounts A)
      → Triple P m Q E
      → Triple P (attempt m) (λ o. Ends Q E o) E
  unfolding attempt
  Triple-attempt {Q} m k = record { at = λ s p. settled-Ends Q E (m s).0 (m s).1 (k.at s p) }

  pub Triple-if :
      {Q : A → AccountWorld → Type 0} (b : Bool) (m n : Accounts A)
      → (b ≡ true → Triple P m Q E)
      → (b ≡ false → Triple P n Q E)
      → Triple P (if b then m else n) Q E
  Triple-if true m n km kn = km refl
  Triple-if false m n km kn = kn refl

module _ {P E : AccountWorld → Type 0} {Q : AccountWorld → Type 0} where
  pub Triple-modify :
      (f : AccountWorld → AccountWorld)
      → ((s : AccountWorld) → P s → Q (f s))
      → Triple P (modify f) (λ _. Q) E
  unfolding modify
  Triple-modify f k = record { at = k }

module _ {A B : Type 0} {P E : AccountWorld → Type 0} {Q : A → AccountWorld → Type 0}
    {R : B → AccountWorld → Type 0} where
  pub Triple-bind :
      (m : Accounts A) (f : A → Accounts B)
      → Triple P m Q E
      → ((a : A) → Triple (Q a) (f a) R E)
      → Triple P (m >>= f) R E
  unfolding ◌>>=◌
  Triple-bind m f km kf = record {
    at = λ s p. continue-Ends E Q R (m s).0 f kf (m s).1 (km.at s p);
  }

-- the same with other conditions
pub Triple-weaken :
    {A : Type 0} {P P' E : AccountWorld → Type 0} {Q Q' : A → AccountWorld → Type 0}
    (m : Accounts A)
    → ((s : AccountWorld) → P' s → P s)
    → ((a : A) (s : AccountWorld) → Q a s → Q' a s)
    → Triple P m Q E
    → Triple P' m Q' E
Triple-weaken {E = E} {Q} {Q'} m p q k = record {
  at = λ s h. weaken Q E Q' (m s).0 (m s).1 q (k.at s (p s h));
}

-- with a fact that no state changes
pub Triple-frame :
    {A : Type 0} {P E : AccountWorld → Type 0} {Q : A → AccountWorld → Type 0} {C : Type 0}
    (m : Accounts A)
    → Triple P m Q E
    → Triple (λ s. P s × C) m (λ a s. Q a s × C) E
Triple-frame {E = E} {Q} {C} m k = record {
  at = λ s h. weaken Q E (λ a s. Q a s × C) (m s).0 (m s).1 (λ a s q. (q, h.1)) (k.at s h.0);
}

fails :
    {A : Type 0} (Q : A → AccountWorld → Type 0) (E E' : AccountWorld → Type 0) (r : Outcome A)
    (s : AccountWorld)
    → ((s : AccountWorld) → E s → E' s)
    → Ends Q E r s
    → Ends Q E' r s
fails Q E E' (ok a) s k h = h
fails Q E E' (err x) s k h = k s h
fails Q E E' panicked s k h = k s h

pub Triple-fails :
    {A : Type 0} {P E E' : AccountWorld → Type 0} {Q : A → AccountWorld → Type 0} (m : Accounts A)
    → ((s : AccountWorld) → E s → E' s)
    → Triple P m Q E
    → Triple P m Q E'
Triple-fails {E = E} {E'} {Q} m x k = record {
  at = λ s p. fails Q E E' (m s).0 (m s).1 x (k.at s p);
}

-- with what is known of the value and the state from the run itself
noted :
    {A : Type 0} (Q : A → AccountWorld → Type 0) (E : AccountWorld → Type 0)
    (F : A → AccountWorld → Type 0) (r : Outcome A) (s : AccountWorld)
    → ((a : A) → r ≡ ok a → F a s)
    → Ends Q E r s
    → Ends (λ a s. Q a s × F a s) E r s
noted Q E F (ok a) s f h = (h, f a refl)
noted Q E F (err x) s f h = h
noted Q E F panicked s f h = h

pub Triple-noting :
    {A : Type 0} {P E : AccountWorld → Type 0} {Q F : A → AccountWorld → Type 0} (m : Accounts A)
    → Triple P m Q E
    → ((s : AccountWorld) (a : A) → (m s).0 ≡ ok a → F a (m s).1)
    → Triple P m (λ a s. Q a s × F a s) E
Triple-noting {E = E} {Q} {F} m k f = record {
  at = λ s p. noted Q E F (m s).0 (m s).1 (f s) (k.at s p);
}

-- a call of the database, the clock or the queue
pub Triple-call :
    {P E : AccountWorld → Type 0} (e : AccountEnv)
    → Aside P
    → ((s : AccountWorld) → P s → E s)
    → Triple P (call e) (λ _. P) E
unfolding call
Triple-call e b x = Triple-service (outside e.base) b x

-- an invariant is kept, however `m` ends
abbrev pub Keeps : {A : Type 0} → (AccountWorld → Type 0) → Accounts A → Type 0
Keeps P m = Triple P m (λ _. P) P

pub Keeps-attempt :
    {A : Type 0} {P : AccountWorld → Type 0} (m : Accounts A) → Keeps P m → Keeps P (attempt m)
Keeps-attempt {P = P} m k =
    Triple-weaken _ (λ s h. h) (λ o s h. same P P o s h) (Triple-attempt m k)

pub Keeps-best_effort :
    {A : Type 0} {P : AccountWorld → Type 0} (m : Accounts A) → Keeps P m → Keeps P (best_effort m)
unfolding best_effort
Keeps-best_effort m k = Triple-bind _ _ (Keeps-attempt m k) (λ o. Triple-pure tt (λ s h. h))
