-- ===== src/Sync/Outbox/Lifecycle/Tries.antt =====
-- How often a row of the outbox is tried, over runs of ProcessOutbox
-- (internal/service/calendar_sync_service.go).
use goreminder.Prelude.{
  ℕ, ◌+◌, ◌-◌, ◌≤◌, ◌≡◌, refl, true, false, List, [], ◌∷◌, All, ltb, ◌==◌, arith,
}
use goreminder.Sync.World.{
  SyncOutbox, OutboxStatus, pending, processing, done, failed, SyncEnv, SyncWorld,
}
use goreminder.Sync.Rows.{is_pending, is_processing}
use goreminder.Sync.World.Rules.{returned}
use goreminder.Sync.Outbox.{process_outbox}
use goreminder.Sync.Outbox.Attempts.{process_outbox-Sound}
use goreminder.Sync.Outbox.Lifecycle.{
  claim, finish, retry, give_up, Steps, stay, step, Unique, Evolved,
}
use goreminder.Sync.Outbox.Lifecycle.Refines.{Evolved-same, process_outbox-refines}

-- the tries that begin on the way
abbrev pub claims : {o p : SyncOutbox} → Steps o p → ℕ
claims (stay o) = 0
claims (step o p q way (claim _ h)) = claims way + 1
claims (step o p q way (finish _ h)) = claims way
claims (step o p q way (retry _ at x h few)) = claims way
claims (step o p q way (give_up _ x h many)) = claims way

-- the tries that a row has left, which its status and its attempts say
abbrev left_of : OutboxStatus → ℕ → ℕ
left_of pending n = 8 - n
left_of processing n = 7 - n
left_of done n = 0
left_of failed n = 0

pending-left_of : (st : OutboxStatus) (n : ℕ) → is_pending st ≡ true → left_of st n ≡ 8 - n
pending-left_of pending n h = refl
pending-left_of processing n h = cc
pending-left_of done n h = cc
pending-left_of failed n h = cc

processing-left_of : (st : OutboxStatus) (n : ℕ) → is_processing st ≡ true → left_of st n ≡ 7 - n
processing-left_of processing n h = refl
processing-left_of pending n h = cc
processing-left_of done n h = cc
processing-left_of failed n h = cc

left_of-le : (st : OutboxStatus) (n : ℕ) → left_of st n ≤ 8
left_of-le pending n = omega arith
left_of-le processing n = omega arith
left_of-le done n = omega arith
left_of-le failed n = omega arith

abbrev Bounded : SyncOutbox → SyncOutbox → ℕ → Type 0
Bounded o p n =
    (n + left_of p.status p.attempts ≤ left_of o.status o.attempts) × (ltb p.attempts 8 ≡ true)

Steps-Bounded :
    (o p : SyncOutbox) (way : Steps o p) → ltb o.attempts 8 ≡ true → Bounded o p (claims way)
Steps-Bounded _ _ (stay o) few = (omega arith, few)
Steps-Bounded _ _ (step o p _ way (claim _ h)) few =
    let (least, less) = Steps-Bounded o p way few in
    let before = pending-left_of p.status p.attempts h in (ground arith, less)
Steps-Bounded _ _ (step o p _ way (finish _ h)) few =
    let (least, less) = Steps-Bounded o p way few in (omega arith, less)
Steps-Bounded _ _ (step o p _ way (retry _ at x h some_left)) few =
    let (least, less) = Steps-Bounded o p way few in
    let before = processing-left_of p.status p.attempts h in (ground arith, some_left)
Steps-Bounded _ _ (step o p _ way (give_up _ x h many)) few =
    let (least, less) = Steps-Bounded o p way few in (omega arith, less)

Steps-id : (o p : SyncOutbox) → Steps o p → p.id ≡ o.id
Steps-id _ _ (stay o) = refl
Steps-id _ _ (step o p _ way (claim _ h)) = Steps-id o p way
Steps-id _ _ (step o p _ way (finish _ h)) = Steps-id o p way
Steps-id _ _ (step o p _ way (retry _ at x h few)) = Steps-id o p way
Steps-id _ _ (step o p _ way (give_up _ x h many)) = Steps-id o p way

Steps-trans : (o p q : SyncOutbox) → Steps o p → Steps p q → Steps o q
Steps-trans o _ _ way (stay p) = way
Steps-trans o _ _ way (step p q r way' s) = step o q r (Steps-trans o p q way way') s

Evolved-trans : (a b c : List SyncOutbox) → Evolved a b → Evolved b c → Evolved a c
Evolved-trans [] [] [] h k = tt
Evolved-trans [] [] (r ∷ c) h k = absurd k
Evolved-trans [] (q ∷ b) c h k = absurd h
Evolved-trans (p ∷ a) [] c h k = absurd h
Evolved-trans (p ∷ a) (q ∷ b) [] h k = absurd k
Evolved-trans (p ∷ a) (q ∷ b) (r ∷ c) h k = (Steps-trans p q r h.0 k.0, Evolved-trans a b c h.1 k.1)

Evolved-others :
    (o p : SyncOutbox) (a b : List SyncOutbox)
    → p.id ≡ o.id
    → All (λ x. (x.id == o.id) ≡ false) a
    → Evolved a b
    → All (λ x. (x.id == p.id) ≡ false) b
Evolved-others o p [] [] same h k = tt
Evolved-others o p [] (y ∷ b) same h k = absurd k
Evolved-others o p (x ∷ a) [] same h k = absurd k
Evolved-others o p (x ∷ a) (y ∷ b) same h k =
    let kept = Steps-id x y k.0 in (cc (kept, same, h.0), Evolved-others o p a b same h.1 k.1)

Evolved-Unique : (a b : List SyncOutbox) → Unique a → Evolved a b → Unique b
Evolved-Unique [] [] u k = tt
Evolved-Unique [] (y ∷ b) u k = absurd k
Evolved-Unique (x ∷ a) [] u k = absurd k
Evolved-Unique (x ∷ a) (y ∷ b) u k =
    (Evolved-others x y a b (Steps-id x y k.0) u.0 k.1, Evolved-Unique a b u.1 k.1)

-- runs one after the other, each with its own faults, answers and clock
abbrev pub run_each : List SyncEnv → SyncWorld → SyncWorld
run_each [] s = s
run_each (e ∷ envs) s = run_each envs (process_outbox e s).1

run_each-Evolved :
    (envs : List SyncEnv) (s : SyncWorld)
    → Unique s.outbox
    → Evolved s.outbox (run_each envs s).outbox
run_each-Evolved [] s u = Evolved-same s.outbox
run_each-Evolved (e ∷ envs) s u =
    let s' = (process_outbox e s).1 in
    let first = process_outbox-refines e s u in
    Evolved-trans s.outbox s'.outbox (run_each envs s').outbox first
      (run_each-Evolved envs s' (Evolved-Unique s.outbox s'.outbox u first))

-- each row came from the row that stood in its place by steps of its life, with at most eight tries
abbrev pub Tried : List SyncOutbox → List SyncOutbox → Type 0
Tried [] [] = Unit
Tried [] (p ∷ ps) = ⊥
Tried (o ∷ os) [] = ⊥
Tried (o ∷ os) (p ∷ ps) =
    ((way : Steps o p) × (claims way ≤ 8) × (ltb p.attempts 8 ≡ true)) × Tried os ps

Evolved-Tried :
    (a b : List SyncOutbox) → All (λ o. ltb o.attempts 8 ≡ true) a → Evolved a b → Tried a b
Evolved-Tried [] [] few k = tt
Evolved-Tried [] (y ∷ b) few k = absurd k
Evolved-Tried (x ∷ a) [] few k = absurd k
Evolved-Tried (x ∷ a) (y ∷ b) few k =
    let (least, less) = Steps-Bounded x y k.0 few.0 in
    let most = left_of-le x.status x.attempts in
    ((k.0, omega arith, less), Evolved-Tried a b few.1 k.1)

-- no run panics
abbrev pub AllReturn : List SyncEnv → SyncWorld → Type 0
AllReturn [] s = Unit
AllReturn (e ∷ envs) s =
    (returned (process_outbox e s).0 ≡ true) × AllReturn envs (process_outbox e s).1

run_each-AllReturn : (envs : List SyncEnv) (s : SyncWorld) → AllReturn envs s
run_each-AllReturn [] s = tt
run_each-AllReturn (e ∷ envs) s =
    ((process_outbox-Sound e).calm.at s, run_each-AllReturn envs (process_outbox e s).1)

-- However often ProcessOutbox runs, and whatever fails in each run: if no two rows have one id and
-- each has fewer than eight attempts, no run panics, and each row goes through steps of its life in
-- which it is claimed at most eight times, and still has fewer than eight attempts.
pub process_outbox-Tried :
    (envs : List SyncEnv) (s : SyncWorld)
    → Unique s.outbox
    → All (λ o. ltb o.attempts 8 ≡ true) s.outbox
    → AllReturn envs s × Tried s.outbox (run_each envs s).outbox
process_outbox-Tried envs s u few = (
  run_each-AllReturn envs s,
  Evolved-Tried s.outbox (run_each envs s).outbox few (run_each-Evolved envs s u),
)
