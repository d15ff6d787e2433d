-- ===== src/Sync/Outbox/Drained.antt =====
-- What a run of ProcessOutbox (internal/service/calendar_sync_service.go) leaves in the outbox.
use goreminder.Prelude.{
  ℕ, ◌+◌, ◌≡◌, refl, Bool, true, false, not, ◌||◌, none, List, [], ◌∷◌, All, any, map, null, leb,
  ◌==◌, arith, Bool-cases, Option-cases, inl, inr,
}
use mathlib.Core.Path.{subst, sym}
use goreminder.Errors.{Outcome, ok, err, panicked}
use goreminder.Service.World.{outside}
use goreminder.Sync.World.{
  SyncOutbox, processing, SyncEnv, SyncWorld, service, gets, pure, modify, lift, or_not_found, call,
  ◌>>=◌, best_effort,
}
use goreminder.Sync.World.Rules.{returned}
use goreminder.Sync.World.Runs.{
  Runs, Runs-pure, Runs-gets, Runs-if, Runs-modify, Runs-bind, Runs-attempt, Runs-best_effort,
  Runs-call, Runs-time_now,
}
use goreminder.Sync.Rows.{
  change, find, select, is_item, is_due, is_processing, first_n, with_status, update_item,
  mark_done, mark_retry, mark_failed, count_pending, claim_due,
}
use goreminder.Sync.Outbox.{max_outbox_attempts, settle_item, process_items, process_outbox}
use goreminder.Sync.Outbox.Frame.{OutboxOnly, aside, process_outbox_item-Sound}

abbrev pub is_claimed : List SyncOutbox → SyncOutbox → Bool
is_claimed items o = any (λ i. i.id == o.id) items

-- A row that is being processed is one of the items.
abbrev Only : List SyncOutbox → SyncOutbox → Type 0
Only items o = (not (is_processing o.status) || is_claimed items o) ≡ true

abbrev OnlyItems : List SyncOutbox → List SyncOutbox → Type 0
OnlyItems items rows = All (Only items) rows

-- an item that is settled is no longer being processed
settled-Only :
    (i : SyncOutbox) (items rows : List SyncOutbox) (f : SyncOutbox → SyncOutbox)
    → ((o : SyncOutbox) → is_processing (f o).status ≡ false)
    → OnlyItems (i ∷ items) rows
    → OnlyItems items (change (is_item i.id) f rows)
unfolding change
settled-Only i items [] f k h = tt
settled-Only i items (o ∷ rows) f k (first, rest) = (
  elim (Bool-cases (is_item i.id o)) [
    | inl y ↦ let q = k o in ground arith
    | inr n ↦ let q = k o in ground arith
  ],
  settled-Only i items rows f k rest,
)

change-missing :
    (p : SyncOutbox → Bool) (f : SyncOutbox → SyncOutbox) (rows : List SyncOutbox)
    → find p rows ≡ none
    → change p f rows ≡ rows
unfolding change find
change-missing p f [] h = refl
change-missing p f (o ∷ rows) h = elim (Bool-cases (p o)) [
  | inl y ↦ ground arith
  | inr n ↦ let rest = change-missing p f rows (ground arith) in ground arith
]

module _ (e : SyncEnv) (sane : (n : ℕ) → e.base.fault n ≡ none) where
  -- without faults an update that is best effort sets the row, if it is there
  update-run :
      (id : ℕ) (f : SyncOutbox → SyncOutbox) (s : SyncWorld)
      → ((best_effort (update_item e id f) s).0 ≡ ok tt)
        × ((best_effort (update_item e id f) s).1.outbox ≡ change (is_item id) f s.outbox)
  unfolding best_effort update_item ◌>>=◌ call outside service gets pure modify or_not_found lift
  update-run id f s =
      let q = sane s.base.calls in
      elim (Option-cases (find (is_item id) s.outbox)) [
        | inl missing ↦ let same = change-missing (is_item id) f s.outbox missing in ground arith
        | inr (row, found) ↦ ground arith
      ]

abbrev NoneProcessing : SyncWorld → Type 0
NoneProcessing s = All (λ o. is_processing o.status ≡ false) s.outbox

OnlyItems-OutboxOnly : (items : List SyncOutbox) → OutboxOnly (λ s. OnlyItems items s.outbox)
OnlyItems-OutboxOnly items = record {
  rebased = λ w s h. h;
  linked = λ l n s h. h;
  called = λ r s h. h;
}

NoneProcessing-OutboxOnly : OutboxOnly NoneProcessing
NoneProcessing-OutboxOnly = record {
  rebased = λ w s h. h;
  linked = λ l n s h. h;
  called = λ r s h. h;
}

claimed-ids :
    (o : SyncOutbox) (items : List SyncOutbox)
    → is_claimed (map (with_status processing) items) o ≡ is_claimed items o
claimed-ids o [] = refl
claimed-ids o (i ∷ items) = let rest = claimed-ids o items in ground arith

claim-Only :
    (items rows : List SyncOutbox)
    → All (λ o. is_processing o.status ≡ false) rows
    → OnlyItems
        (map (with_status processing) items)
        (change (is_claimed items) (with_status processing) rows)
unfolding change
claim-Only items [] h = tt
claim-Only items (o ∷ rows) (first, rest) = (
  elim (Bool-cases (is_claimed items o)) [
    | inl y ↦ let q = claimed-ids o items in ground arith
    | inr n ↦ ground arith
  ],
  claim-Only items rows rest,
)

none_left :
    (rows : List SyncOutbox) → OnlyItems [] rows → All (λ o. is_processing o.status ≡ false) rows
none_left [] h = tt
none_left (o ∷ rows) (first, rest) = (ground arith, none_left rows rest)

nothing_claimed :
    (rows : List SyncOutbox) → All (λ o. is_processing o.status ≡ false) rows → OnlyItems [] rows
nothing_claimed [] h = tt
nothing_claimed (o ∷ rows) (first, rest) = (ground arith, nothing_claimed rows rest)

module _ (e : SyncEnv) (sane : (n : ℕ) → e.base.fault n ≡ none) where
  settled-Runs :
      (i : SyncOutbox) (items : List SyncOutbox) (f : SyncOutbox → SyncOutbox)
      → ((o : SyncOutbox) → is_processing (f o).status ≡ false)
      → Runs
          (λ s. OnlyItems (i ∷ items) s.outbox)
          (best_effort (update_item e i.id f))
          (λ _ s. OnlyItems items s.outbox)
  settled-Runs i items f k = record {
    at = λ s h.
        let (run, rows) = update-run e sane i.id f s in
        (tt, run, subst (OnlyItems items) (sym rows) (settled-Only i items s.outbox f k h));
  }

  settle_item-Runs :
      (i : SyncOutbox) (items : List SyncOutbox) (r : Outcome (Unit {0}))
      → returned r ≡ true
      → Runs
          (λ s. OnlyItems (i ∷ items) s.outbox)
          (settle_item e i r)
          (λ _ s. OnlyItems items s.outbox)
  unfolding settle_item mark_done mark_failed mark_retry
  settle_item-Runs i items (ok _) back = settled-Runs i items _ (λ o. refl)
  settle_item-Runs i items panicked back = cc
  settle_item-Runs i items (err x) back =
      Runs-if (leb max_outbox_attempts (i.attempts + 1)) _ _
        (λ _. settled-Runs i items _ (λ o. refl))
        λ _.
          Runs-bind _ _ (Runs-time_now e (aside e (OnlyItems-OutboxOnly (i ∷ items))))
            (λ now. settled-Runs i items _ (λ o. refl))

  process_items-Runs :
      (items : List SyncOutbox)
      → Runs (λ s. OnlyItems items s.outbox) (process_items e items) (λ _. NoneProcessing)
  unfolding process_items
  process_items-Runs [] = Runs-pure tt (λ s h. none_left s.outbox h)
  process_items-Runs (i ∷ items) =
      Runs-attempt _ _ (process_outbox_item-Sound e (OnlyItems-OutboxOnly (i ∷ items)) i)
        λ r back. Runs-bind _ _ (settle_item-Runs i items r back) (λ _. process_items-Runs items)

  claim_due-Runs : Runs NoneProcessing (claim_due e 50) (λ items s. OnlyItems items s.outbox)
  unfolding claim_due
  claim_due-Runs =
      let b = aside e NoneProcessing-OutboxOnly in
      Runs-bind _ _ (Runs-call e b sane) λ _. Runs-bind _ _ (Runs-time_now e b) λ now.
        Runs-bind _ _ (Runs-call e b sane) λ _. Runs-bind _ _ (Runs-gets _ (λ s h. h)) λ rows.
          Runs-if (null (first_n 50 (select (is_due now) rows))) _ _
            (λ _. Runs-pure [] (λ s h. nothing_claimed s.outbox h))
            λ _. Runs-bind _ _ (Runs-call e b sane) λ _. Runs-bind _ _ (Runs-call e b sane) λ _.
              Runs-bind _ _ (Runs-modify _ (λ s h. claim-Only _ s.outbox h))
                (λ _. Runs-pure _ (λ s h. h))

  count_pending-Runs :
      (items : List SyncOutbox)
      → Runs
          (λ s. OnlyItems items s.outbox)
          (best_effort (count_pending e))
          (λ _ s. OnlyItems items s.outbox)
  unfolding count_pending
  count_pending-Runs items = Runs-best_effort _ (
      Runs-bind _ _ (Runs-call e (aside e (OnlyItems-OutboxOnly items)) sane)
        (λ _. Runs-gets _ (λ s h. h)))

  process_outbox-Runs : Runs NoneProcessing (process_outbox e) (λ _. NoneProcessing)
  unfolding process_outbox
  process_outbox-Runs =
      Runs-bind _ _ claim_due-Runs
        λ items. Runs-bind _ _ (count_pending-Runs items) (λ _. process_items-Runs items)

-- Where no call of the database fails and no row of the outbox is being processed before,
-- ProcessOutbox succeeds, and no row is being processed after: each item that it claimed was
-- marked as done or failed, or returned to the pending ones.
pub process_outbox-drained :
    (e : SyncEnv) (s : SyncWorld)
    → ((n : ℕ) → e.base.fault n ≡ none)
    → All (λ o. is_processing o.status ≡ false) s.outbox
    → ((process_outbox e s).0 ≡ ok tt)
      × All (λ o. is_processing o.status ≡ false) (process_outbox e s).1.outbox
process_outbox-drained e s sane before =
    let (_, run, after) = (process_outbox-Runs e sane).at s before in (run, after)
