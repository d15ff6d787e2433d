-- ===== src/Sync/Outbox/Lifecycle/Refines.antt =====
-- ProcessOutbox (internal/service/calendar_sync_service.go) and the life of an outbox row.
use goreminder.Prelude.{◌+◌, ◌≡◌, refl, sym, true, List, [], ◌∷◌, All, map, null, ltb, leb, arith}
use mathlib.Core.Path.{subst}
use goreminder.Prelude.Int.{pos}
use goreminder.Errors.{Outcome, ok, err, panicked}
use goreminder.Clock.{Time}
use goreminder.Calendar.Backoff.{outbox_backoff}
use goreminder.Sync.World.{SyncOutbox, processing, SyncEnv, SyncWorld, best_effort, call}
use goreminder.Sync.World.Rules.{
  Holds-call, Holds-time_now, Holds-gets, Holds-or_not_found, Holds-then, Holds-best_effort,
}
use goreminder.Sync.World.Leads.{
  Leads, Leads-Holds, Leads-attempt, Leads-best_effort, Leads-pure, Leads-gets, Leads-if,
  Leads-modify, Leads-bind, Leads-weaker, Leads-panicked, Reached-end,
}
use goreminder.Sync.Rows.{
  change, select, is_due, is_processing, first_n, with_status, retried, update_item, mark_done,
  mark_retry, mark_failed, count_pending, claim_due,
}
use goreminder.Sync.Outbox.{max_outbox_attempts, settle_item, process_items, process_outbox}
use goreminder.Sync.Outbox.Frame.{OutboxOnly, aside, process_outbox_item-Sound}
use goreminder.Sync.Outbox.Drained.{is_claimed}
use goreminder.Sync.Outbox.Lifecycle.{
  Step, finish, retry, give_up, stay, Unique, Evolved, Awaits, Underway,
}
use goreminder.Sync.Outbox.Lifecycle.Settled.{Underway-fewer, Underway-settled}
use goreminder.Sync.Outbox.Lifecycle.Claimed.{claimed-Underway}

pub Evolved-same : (rows : List SyncOutbox) → Evolved rows rows
Evolved-same [] = tt
Evolved-same (o ∷ rows) = (stay o, Evolved-same rows)

nothing-Awaits : (rows : List SyncOutbox) → All (Awaits []) rows
nothing-Awaits [] = tt
nothing-Awaits (o ∷ rows) = (tt, nothing-Awaits rows)

module _ (e : SyncEnv) (before : List SyncOutbox) where
  Going : List SyncOutbox → SyncWorld → Type 0
  Going items s = Underway before items s.outbox

  Ended : SyncWorld → Type 0
  Ended s = Evolved before s.outbox

  Going-OutboxOnly : (items : List SyncOutbox) → OutboxOnly (Going items)
  unfolding Going
  Going-OutboxOnly items = record {
    rebased = λ w s h. h;
    linked = λ l n s h. h;
    called = λ r s h. h;
  }

  Going-Ended : (items : List SyncOutbox) (s : SyncWorld) → Going items s → Ended s
  unfolding Going Ended
  Going-Ended items s h = h.0

  fewer :
      (i : SyncOutbox) (items : List SyncOutbox) (s : SyncWorld)
      → Going (i ∷ items) s
      → Going items s
  unfolding Going
  fewer i items s h = Underway-fewer before i items s.outbox h

  update-Leads :
      (i : SyncOutbox) (items : List SyncOutbox) (f : SyncOutbox → SyncOutbox)
      → ((o : SyncOutbox) → is_processing o.status ≡ true → i.attempts ≡ o.attempts → Step o (f o))
      → ((o : SyncOutbox) → (f o).id ≡ o.id)
      → Leads (Going (i ∷ items)) (best_effort (update_item e i.id f)) (λ _. Going items) Ended
  unfolding update_item Going
  update-Leads i items f moves named = Leads-weaker _ (Going-Ended items) (
      Leads-best_effort _ (
        Leads-bind _ _
          (Leads-Holds _ (Holds-call e (aside e (Going-OutboxOnly (i ∷ items)))) (fewer i items))
          λ n. Leads-bind _ _ (Leads-Holds _ (Holds-gets _) (fewer i items)) λ rows.
            Leads-bind _ _ (Leads-Holds _ (Holds-or_not_found _) (fewer i items)) λ row.
              Leads-modify _ (λ s h. Underway-settled i items f moves named before s.outbox h)))

  settle_item-Leads :
      (i : SyncOutbox) (items : List SyncOutbox) (r : Outcome (Unit {0}))
      → Leads (Going (i ∷ items)) (settle_item e i r) (λ _. Going items) Ended
  unfolding settle_item mark_done mark_failed mark_retry
  settle_item-Leads i items (ok _) =
      update-Leads i items _ (λ o busy same. finish o busy) (λ o. refl)
  settle_item-Leads i items panicked = Leads-panicked (Going-Ended (i ∷ items))
  settle_item-Leads i items (err x) =
      Leads-if (leb max_outbox_attempts (i.attempts + 1)) _ _
        (λ many.
          update-Leads i items _
            (λ o busy same. give_up o x busy (subst (λ n. leb 8 (n + 1) ≡ true) same many))
            (λ o. refl))
        λ few.
          Leads-bind _ _
            (Leads-Holds _ (Holds-time_now e (aside e (Going-OutboxOnly (i ∷ items))))
              (Going-Ended (i ∷ items)))
            λ now.
              update-Leads i items _
                (λ o busy same.
                  let some_left : ltb (o.attempts + 1) 8 ≡ true =
                    subst (λ n. ltb (n + 1) 8 ≡ true) same (ground arith) in
                  subst
                    (λ n.
                      Step o (retried (n + 1) (now + outbox_backoff (pos (i.attempts + 1))) x o))
                    (sym same)
                    (retry o (now + outbox_backoff (pos (i.attempts + 1))) x busy some_left))
                (λ o. refl)

  process_items-Leads :
      (items : List SyncOutbox) → Leads (Going items) (process_items e items) (λ _. Ended) Ended
  unfolding process_items
  process_items-Leads [] = Leads-pure tt (Going-Ended [])
  process_items-Leads (i ∷ items) =
      Leads-bind _ _
        (Leads-attempt _ (process_outbox_item-Sound e (Going-OutboxOnly (i ∷ items)) i).keeps
          (Going-Ended (i ∷ items)))
        λ r. Leads-bind _ _ (settle_item-Leads i items r) (λ _. process_items-Leads items)

  AsBefore : SyncWorld → Type 0
  AsBefore s = s.outbox ≡ before

  AsBefore-OutboxOnly : OutboxOnly AsBefore
  unfolding AsBefore
  AsBefore-OutboxOnly = record { rebased = λ w s h. h; linked = λ l n s h. h; called = λ r s h. h }

  AsBefore-Ended : (s : SyncWorld) → AsBefore s → Ended s
  unfolding AsBefore Ended
  AsBefore-Ended s h = subst (Evolved before) (sym h) (Evolved-same before)

  -- the rows that the query found
  Read : List SyncOutbox → SyncWorld → Type 0
  Read rows s = (s.outbox ≡ before) × (rows ≡ before)

  Read-OutboxOnly : (rows : List SyncOutbox) → OutboxOnly (Read rows)
  unfolding Read
  Read-OutboxOnly rows = record { rebased = λ w s h. h; linked = λ l n s h. h; called = λ r s h. h }

  claim_call : (rows : List SyncOutbox) → Leads (Read rows) (call e) (λ _. Read rows) Ended
  unfolding Read Ended AsBefore
  claim_call rows =
      Leads-Holds _ (Holds-call e (aside e (Read-OutboxOnly rows))) (λ s h. AsBefore-Ended s h.0)

  claimed_rows :
      (now : Time) (rows : List SyncOutbox) (s : SyncWorld)
      → Unique before
      → Read rows s
      → Underway before (map (with_status processing) (first_n 50 (select (is_due now) rows))) (
          change
            (is_claimed (first_n 50 (select (is_due now) rows)))
            (with_status processing)
            s.outbox)
  unfolding Read
  claimed_rows now rows s unique (same, found) =
      subst
        (λ r. Underway before (map (with_status processing) (first_n 50 (select (is_due now) r))) (
          change (is_claimed (first_n 50 (select (is_due now) r))) (with_status processing)
            s.outbox))
        (sym found)
        (subst
          (λ out.
            Underway before (map (with_status processing) (first_n 50 (select (is_due now) before)))
              (change (is_claimed (first_n 50 (select (is_due now) before)))
                (with_status processing) out))
          (sym same) (claimed-Underway 50 now before unique))

  claim_due-Leads : Unique before → Leads AsBefore (claim_due e 50) Going Ended
  unfolding claim_due AsBefore Going Read
  claim_due-Leads unique =
      let b = aside e AsBefore-OutboxOnly in
      Leads-bind _ _ (Leads-Holds _ (Holds-call e b) AsBefore-Ended) λ _.
        Leads-bind _ _ (Leads-Holds _ (Holds-time_now e b) AsBefore-Ended) λ now.
          Leads-bind _ _ (Leads-Holds _ (Holds-call e b) AsBefore-Ended) λ _.
            Leads-bind {Q = Read} _ _ (Leads-gets _ (λ s h. (h, h))) λ rows.
              Leads-if (null (first_n 50 (select (is_due now) rows))) _ _
                (λ _. Leads-pure [] (λ s h.
                  subst (Underway before []) (sym h.0)
                    (Evolved-same before, nothing-Awaits before, tt)))
                λ _. Leads-bind _ _ (claim_call rows) λ _. Leads-bind _ _ (claim_call rows) λ _.
                  Leads-bind _ _ (Leads-modify _ (λ s h. claimed_rows now rows s unique h))
                    (λ _. Leads-pure _ (λ s h. h))

  count_pending-Leads :
      (items : List SyncOutbox)
      → Leads (Going items) (best_effort (count_pending e)) (λ _. Going items) Ended
  unfolding count_pending
  count_pending-Leads items =
      Leads-Holds _
        (Holds-best_effort _
          (Holds-then _ _ (Holds-call e (aside e (Going-OutboxOnly items))) (Holds-gets _)))
        (Going-Ended items)

  process_outbox-Leads : Unique before → Leads AsBefore (process_outbox e) (λ _. Ended) Ended
  unfolding process_outbox
  process_outbox-Leads unique =
      Leads-bind _ _ (claim_due-Leads unique)
        λ items. Leads-bind _ _ (count_pending-Leads items) (λ _. process_items-Leads items)

-- If no two rows of the outbox have one id, ProcessOutbox takes each row through steps of its life
-- only, however it ends and whatever fails: a pending row is claimed; a row that is being processed
-- is done, is tried again while it was tried less than eight times, or fails.
pub process_outbox-refines :
    (e : SyncEnv) (s : SyncWorld) → Unique s.outbox → Evolved s.outbox (process_outbox e s).1.outbox
unfolding AsBefore Ended
process_outbox-refines e s unique =
    Reached-end (process_outbox e) (process_outbox-Leads e s.outbox unique) s refl
