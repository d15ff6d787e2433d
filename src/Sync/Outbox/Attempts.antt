-- ===== src/Sync/Outbox/Attempts.antt =====
-- The number of attempts in the outbox (internal/service/calendar_sync_service.go).
use goreminder.Prelude.{
  ℕ, ◌+◌, ◌≡◌, Bool, true, List, [], ◌∷◌, All, null, ltb, leb, ◌==◌, arith, Bool-cases, inl, inr,
  if◌then◌else◌,
}
use goreminder.Errors.{Outcome, ok, err, panicked}
use goreminder.Sync.World.{SyncOutbox, processing, done, failed, SyncEnv, SyncWorld, Sync}
use goreminder.Sync.World.Rules.{returned}
use goreminder.Sync.World.Sound.{
  Sound, Sound-pure, Sound-lift, Sound-gets, Sound-or_not_found, Sound-best_effort, Sound-if,
  Sound-modify, Sound-bind, Sound-then, Sound-attempt, Sound-call, Sound-time_now,
}
use goreminder.Sync.Rows.{
  change, select, is_item, is_due, first_n, with_status, update_item, mark_done, mark_retry,
  mark_failed, count_pending, claim_due,
}
use goreminder.Sync.Outbox.{max_outbox_attempts, settle_item, process_items, process_outbox}
use goreminder.Sync.Outbox.Frame.{OutboxOnly, aside, process_outbox_item-Sound}

-- Every row was tried less than eight times.
abbrev Few : SyncOutbox → Type 0
Few o = ltb o.attempts 8 ≡ true

abbrev AllFew : SyncWorld → Type 0
AllFew s = All Few s.outbox

AllFew-OutboxOnly : OutboxOnly AllFew
AllFew-OutboxOnly = record { rebased = λ w s h. h; linked = λ l n s h. h; called = λ r s h. h }

change-All :
    (p : SyncOutbox → Bool) (f : SyncOutbox → SyncOutbox) (rows : List SyncOutbox)
    → ((o : SyncOutbox) → Few o → Few (f o))
    → All Few rows
    → All Few (change p f rows)
unfolding change
change-All p f [] k h = tt
change-All p f (o ∷ rows) k (few, rest) = (
  elim (Bool-cases (p o)) [ inl y ↦ let q = k o few in ground arith | inr n ↦ ground arith ],
  change-All p f rows k rest,
)

module _ (e : SyncEnv) where
  called : Sound AllFew (goreminder.Sync.World.call e)
  called = Sound-call e (aside e AllFew-OutboxOnly)

  now-Sound : Sound AllFew (goreminder.Sync.World.time_now e)
  now-Sound = Sound-time_now e (aside e AllFew-OutboxOnly)

  update_item-Sound :
      (id : ℕ) (f : SyncOutbox → SyncOutbox)
      → ((o : SyncOutbox) → Few o → Few (f o))
      → Sound AllFew (update_item e id f)
  unfolding update_item
  update_item-Sound id f k = Sound-then _ _ called (
      Sound-bind _ _ (Sound-gets _) λ rows.
        Sound-then _ _ (Sound-or_not_found _)
          (Sound-modify _ (λ s h. change-All (is_item id) f s.outbox k h)))

  settle_item-Sound :
      (i : SyncOutbox) (r : Outcome (Unit {0}))
      → returned r ≡ true
      → Sound AllFew (settle_item e i r)
  unfolding settle_item mark_done mark_failed mark_retry
  settle_item-Sound i (ok _) back = Sound-best_effort _ (update_item-Sound i.id _ (λ o h. h))
  settle_item-Sound i panicked back = Sound-lift panicked back
  settle_item-Sound i (err x) back =
      Sound-if (leb max_outbox_attempts (i.attempts + 1)) _ _
        (λ _. Sound-best_effort _ (update_item-Sound i.id _ (λ o h. h)))
        λ small.
          Sound-bind _ _ now-Sound
            λ now. Sound-best_effort _ (update_item-Sound i.id _ (λ o h. ground arith))

  process_items-Sound : (items : List SyncOutbox) → Sound AllFew (process_items e items)
  unfolding process_items
  process_items-Sound [] = Sound-pure tt
  process_items-Sound (i ∷ items) =
      Sound-attempt _ _ (process_outbox_item-Sound e AllFew-OutboxOnly i)
        λ r back. Sound-then _ _ (settle_item-Sound i r back) (process_items-Sound items)

  claim_due-Sound : (n : ℕ) → Sound AllFew (claim_due e n)
  unfolding claim_due
  claim_due-Sound n = Sound-then _ _ called (
      Sound-bind _ _ now-Sound λ now. Sound-then _ _ called (
        Sound-bind _ _ (Sound-gets _) λ rows.
          Sound-if (null (first_n (if n == 0 then 50 else n) (select (is_due now) rows))) _ _
            (λ _. Sound-pure _)
            λ _. Sound-then _ _ called (
              Sound-then _ _ called (
                Sound-then _ _
                  (Sound-modify _
                    (λ s h. change-All _ (with_status processing) s.outbox (λ o few. few) h))
                  (Sound-pure _)))))

  count_pending-Sound : Sound AllFew (count_pending e)
  unfolding count_pending
  count_pending-Sound = Sound-then _ _ called (Sound-gets _)

  pub process_outbox-Sound : Sound AllFew (process_outbox e)
  unfolding process_outbox
  process_outbox-Sound =
      Sound-bind _ _ (claim_due-Sound 50) λ items.
        Sound-then _ _ (Sound-best_effort _ count_pending-Sound) (process_items-Sound items)
