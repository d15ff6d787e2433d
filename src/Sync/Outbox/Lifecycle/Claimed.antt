-- ===== src/Sync/Outbox/Lifecycle/Claimed.antt =====
-- The rows that ClaimDue (internal/repository/sync_outbox_repository.go) claims.
use goreminder.Prelude.{
  ℕ, zero, suc, ◌≡◌, refl, sym, Bool, true, false, List, [], ◌∷◌, All, map, ◌==◌, arith, Bool-cases,
  inl, inr, if◌then◌else◌,
}
use mathlib.Core.Path.{subst}
use goreminder.Clock.{Time}
use goreminder.Sync.World.{SyncOutbox, processing}
use goreminder.Sync.Rows.{change, select, is_due, is_pending, first_n, with_status}
use goreminder.Sync.Outbox.Drained.{is_claimed}
use goreminder.Sync.Outbox.Lifecycle.{claim, Steps, stay, step, Unique, Evolved, Awaits, Underway}

abbrev Differs : ℕ → SyncOutbox → Type 0
Differs id p = (p.id == id) ≡ false

abbrev due_items : ℕ → Time → List SyncOutbox → List SyncOutbox
due_items n now rows = first_n n (select (is_due now) rows)

-- an item with the id of a row is that row, and it is pending
abbrev Fits : List SyncOutbox → SyncOutbox → Type 0
Fits items o =
    All (λ i. (i.id == o.id) ≡ true → (is_pending o.status ≡ true) × (i.attempts ≡ o.attempts))
      items

module _ (P : SyncOutbox → Type 0) where
  first_n-All : (n : ℕ) (rows : List SyncOutbox) → All P rows → All P (first_n n rows)
  unfolding first_n
  first_n-All zero rows h = tt
  first_n-All (suc n) [] h = tt
  first_n-All (suc n) (o ∷ rows) (first, rest) = (first, first_n-All n rows rest)

  select-All : (d : SyncOutbox → Bool) (rows : List SyncOutbox) → All P rows → All P (select d rows)
  unfolding select
  select-All d [] h = tt
  select-All d (o ∷ rows) (first, rest) =
      let more = select-All d rows rest in
      elim (Bool-cases (d o)) [
        | inl y ↦
            subst (λ b. All P (if b then o ∷ select d rows else select d rows)) (sym y)
              (first, more)
        | inr n ↦ subst (λ b. All P (if b then o ∷ select d rows else select d rows)) (sym n) more
      ]

first_n-Unique : (n : ℕ) (rows : List SyncOutbox) → Unique rows → Unique (first_n n rows)
unfolding first_n
first_n-Unique zero rows h = tt
first_n-Unique (suc n) [] h = tt
first_n-Unique (suc n) (o ∷ rows) (first, rest) =
    (first_n-All (Differs o.id) n rows first, first_n-Unique n rows rest)

select-Unique :
    (d : SyncOutbox → Bool) (rows : List SyncOutbox) → Unique rows → Unique (select d rows)
unfolding select
select-Unique d [] h = tt
select-Unique d (o ∷ rows) (first, rest) =
    let more = select-Unique d rows rest in
    elim (Bool-cases (d o)) [
      | inl y ↦
          subst (λ b. Unique (if b then o ∷ select d rows else select d rows)) (sym y)
            (select-All (Differs o.id) d rows first, more)
      | inr n ↦ subst (λ b. Unique (if b then o ∷ select d rows else select d rows)) (sym n) more
    ]

claimed-All :
    (id : ℕ) (items : List SyncOutbox)
    → All (Differs id) items
    → All (Differs id) (map (with_status processing) items)
claimed-All id [] h = tt
claimed-All id (i ∷ items) (first, rest) = (first, claimed-All id items rest)

claimed-Unique :
    (items : List SyncOutbox) → Unique items → Unique (map (with_status processing) items)
claimed-Unique [] h = tt
claimed-Unique (i ∷ items) (first, rest) = (claimed-All i.id items first, claimed-Unique items rest)

-- no item has the id
Differs-Fits : (o : SyncOutbox) (items : List SyncOutbox) → All (Differs o.id) items → Fits items o
Differs-Fits o [] h = tt
Differs-Fits o (i ∷ items) (first, rest) = ((λ same. cc (same, first)), Differs-Fits o items rest)

-- one item more, with another id
more-Fits :
    (o : SyncOutbox) (items rows : List SyncOutbox)
    → All (Differs o.id) rows
    → All (Fits items) rows
    → All (Fits (o ∷ items)) rows
more-Fits o items [] h k = tt
more-Fits o items (p ∷ rows) (first, rest) (fits, more) =
    (((λ same. absurd (ground arith)), fits), more-Fits o items rows rest more)

nothing-Fits : (rows : List SyncOutbox) → All (Fits []) rows
nothing-Fits [] = tt
nothing-Fits (o ∷ rows) = (tt, nothing-Fits rows)

apart-Fits :
    (n : ℕ) (now : Time) (o : SyncOutbox) (rows : List SyncOutbox)
    → All (Differs o.id) rows
    → Fits (due_items n now rows) o
apart-Fits n now o rows first = Differs-Fits o (due_items n now rows) (
    first_n-All (Differs o.id) n (select (is_due now) rows)
      (select-All (Differs o.id) (is_due now) rows first))

-- the first row is due
due_first :
    (n : ℕ) (now : Time) (o : SyncOutbox) (rows : List SyncOutbox)
    → is_due now o ≡ true
    → All (Differs o.id) rows
    → ((m : ℕ) → All (Fits (due_items m now rows)) rows)
    → All (Fits (first_n n (o ∷ select (is_due now) rows))) (o ∷ rows)
unfolding first_n
due_first zero now o rows due first rest = nothing-Fits (o ∷ rows)
due_first (suc n) now o rows due first rest = (
  ((λ _. (ground arith, refl)), apart-Fits n now o rows first),
  more-Fits o (due_items n now rows) rows first (rest n),
)

due-Fits :
    (now : Time) (rows : List SyncOutbox)
    → Unique rows
    → (n : ℕ) → All (Fits (due_items n now rows)) rows
unfolding select
due-Fits now [] h n = tt
due-Fits now (o ∷ rows) (first, rest) n =
    let claimed : Bool → List SyncOutbox =
      λ b. if b then o ∷ select (is_due now) rows else select (is_due now) rows in
    elim (Bool-cases (is_due now o)) [
      | inl y ↦
          subst (λ b. All (Fits (first_n n (claimed b))) (o ∷ rows)) (sym y)
            (due_first n now o rows y first (due-Fits now rows rest))
      | inr m ↦
          subst (λ b. All (Fits (first_n n (claimed b))) (o ∷ rows)) (sym m)
            (apart-Fits n now o rows first, due-Fits now rows rest n)
    ]

-- a claimed row is pending, and its item has its attempts
Fits-pending :
    (o : SyncOutbox) (items : List SyncOutbox)
    → Fits items o
    → is_claimed items o ≡ true
    → is_pending o.status ≡ true
Fits-pending o [] h c = cc
Fits-pending o (i ∷ items) (first, rest) c = elim (Bool-cases (i.id == o.id)) [
  | inl y ↦ (first y).0
  | inr n ↦ Fits-pending o items rest (ground arith)
]

Fits-Awaits :
    (o : SyncOutbox) (items : List SyncOutbox)
    → Fits items o
    → Awaits (map (with_status processing) items) (with_status processing o)
Fits-Awaits o [] h = tt
Fits-Awaits o (i ∷ items) (first, rest) =
    ((λ same. (refl, (first same).1)), Fits-Awaits o items rest)

unclaimed-Awaits :
    (o : SyncOutbox) (items : List SyncOutbox)
    → is_claimed items o ≡ false
    → Awaits (map (with_status processing) items) o
unclaimed-Awaits o [] h = tt
unclaimed-Awaits o (i ∷ items) h =
    ((λ same. absurd (ground arith)), unclaimed-Awaits o items (ground arith))

claim-Underway :
    (items rows : List SyncOutbox)
    → All (Fits items) rows
    → Evolved rows (change (is_claimed items) (with_status processing) rows)
      × All
          (Awaits (map (with_status processing) items))
          (change (is_claimed items) (with_status processing) rows)
unfolding change
claim-Underway items [] h = (tt, tt)
claim-Underway items (o ∷ rows) (first, rest) =
    let (evolved, awaits) = claim-Underway items rows rest in
    let next : Bool → SyncOutbox = λ b. if b then with_status processing o else o in
    elim (Bool-cases (is_claimed items o)) [
      | inl y ↦ (
        (
          subst (λ b. Steps o (next b)) (sym y)
              (step o o (with_status processing o) (stay o)
                (claim o (Fits-pending o items first y))),
          evolved,
        ),
        (
          subst (λ b. Awaits (map (with_status processing) items) (next b)) (sym y)
              (Fits-Awaits o items first),
          awaits,
        ),
      )
      | inr n ↦ (
        (subst (λ b. Steps o (next b)) (sym n) (stay o), evolved),
        (
          subst (λ b. Awaits (map (with_status processing) items) (next b)) (sym n)
              (unclaimed-Awaits o items n),
          awaits,
        ),
      )
    ]

pub claimed-Underway :
    (n : ℕ) (now : Time) (rows : List SyncOutbox)
    → Unique rows
    → Underway rows
        (map (with_status processing) (due_items n now rows))
        (change (is_claimed (due_items n now rows)) (with_status processing) rows)
claimed-Underway n now rows unique =
    let (evolved, awaits) =
      claim-Underway (due_items n now rows) rows (due-Fits now rows unique n) in
    (
      evolved,
      awaits,
      claimed-Unique (due_items n now rows)
          (first_n-Unique n (select (is_due now) rows) (select-Unique (is_due now) rows unique)),
    )
