-- ===== src/Sync/Outbox/Lifecycle/Settled.antt =====
-- The row of an item that ProcessOutbox settles (internal/service/calendar_sync_service.go).
use goreminder.Prelude.{
  ℕ, ◌≡◌, ap, sym, ◌∙◌, true, false, List, [], ◌∷◌, All, ◌==◌, arith, Bool-cases, inl, inr,
  if◌then◌else◌,
}
use mathlib.Core.Path.{subst}
use goreminder.Sync.World.{SyncOutbox}
use goreminder.Sync.Rows.{change, is_item, is_processing}
use goreminder.Sync.Outbox.Lifecycle.{Step, Steps, step, Evolved, Awaits, Underway}

swap_eq : (a b : ℕ) → (a == b) ≡ true → (b == a) ≡ true
swap_eq a b h = ground arith

drop_item :
    (i : SyncOutbox) (items rows : List SyncOutbox)
    → All (Awaits (i ∷ items)) rows
    → All (Awaits items) rows
drop_item i items [] h = tt
drop_item i items (o ∷ rows) ((head, tail), rest) = (tail, drop_item i items rows rest)

-- an item less: an update that did not take place
pub Underway-fewer :
    (before : List SyncOutbox) (i : SyncOutbox) (items rows : List SyncOutbox)
    → Underway before (i ∷ items) rows
    → Underway before items rows
Underway-fewer before i items rows (evolved, awaits, (_, unique)) =
    (evolved, drop_item i items rows awaits, unique)

nothing-Awaits :
    (i o : SyncOutbox) (items : List SyncOutbox)
    → (o.id == i.id) ≡ true
    → All (λ j. (j.id == i.id) ≡ false) items
    → Awaits items o
nothing-Awaits i o [] same h = tt
nothing-Awaits i o (j ∷ items) same (first, rest) =
    ((λ equal. absurd (ground arith)), nothing-Awaits i o items same rest)

module _ (i : SyncOutbox) (items : List SyncOutbox) (f : SyncOutbox → SyncOutbox)
    (moves : (o : SyncOutbox)
      → is_processing o.status ≡ true
      → i.attempts ≡ o.attempts
      → Step o (f o))
    (named : (o : SyncOutbox) → (f o).id ≡ o.id) where
  change-Evolved :
      (before rows : List SyncOutbox)
      → Evolved before rows
      → All (Awaits (i ∷ items)) rows
      → Evolved before (change (is_item i.id) f rows)
  unfolding change
  change-Evolved [] [] h a = tt
  change-Evolved [] (p ∷ rows) h a = h
  change-Evolved (o ∷ before) [] h a = h
  change-Evolved (o ∷ before) (p ∷ rows) (first, rest) ((head, tail), more) = (
    elim (Bool-cases (is_item i.id p)) [
      | inl y ↦
          let (busy, same) = head (swap_eq p.id i.id y) in
          subst (λ b. Steps o (if b then f p else p)) (sym y)
            (step o p (f p) first (moves p busy same))
      | inr n ↦ subst (λ b. Steps o (if b then f p else p)) (sym n) first
    ],
    change-Evolved before rows rest more,
  )

  change-Awaits :
      (rows : List SyncOutbox)
      → All (λ j. (j.id == i.id) ≡ false) items
      → All (Awaits (i ∷ items)) rows
      → All (Awaits items) (change (is_item i.id) f rows)
  unfolding change
  change-Awaits [] u a = tt
  change-Awaits (p ∷ rows) u ((head, tail), more) = (
    elim (Bool-cases (is_item i.id p)) [
      | inl y ↦
          let here : ((f p).id == i.id) ≡ true = (ap (λ n. n == i.id) (named p)) ∙ y in
          subst (λ b. Awaits items (if b then f p else p)) (sym y)
            (nothing-Awaits i (f p) items here u)
      | inr n ↦ subst (λ b. Awaits items (if b then f p else p)) (sym n) tail
    ],
    change-Awaits rows u more,
  )

  pub Underway-settled :
      (before rows : List SyncOutbox)
      → Underway before (i ∷ items) rows
      → Underway before items (change (is_item i.id) f rows)
  Underway-settled before rows (evolved, awaits, (apart, unique)) =
      (change-Evolved before rows evolved awaits, change-Awaits rows apart awaits, unique)
