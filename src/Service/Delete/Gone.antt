-- ===== src/Service/Delete/Gone.antt =====
-- The table after DeleteTask (internal/service/task_service.go).
use goreminder.Prelude.{
  ℕ, ◌+◌, if◌then◌else◌, ◌≡◌, refl, true, none, List, [], arith, Option-cases, inl, inr,
}
use mathlib.Core.Path.{subst}
use goreminder.Errors.{Err, Outcome, ok, err, panicked}
use goreminder.Models.{Task}
use goreminder.Recurrence.Rules.{has_recurrence_rule}
use goreminder.Service.World.{Env, World, M, raise, outside, modify, time_now, ◌>>=◌}
use goreminder.Service.World.Keeps.{Keeps, Keeps-pure, Keeps-then, Keeps-bind}
use goreminder.Service.World.Ensures.{Ensures, Anything, Ensures-keeps, Ensures-if, Ensures-bind}
use goreminder.Service.Repository.{
  is_row, first_row, delete_task as delete_row_of, delete_task_tx, tx_write,
}
use goreminder.Service.Repository.Rows.{
  NoRow, has_delete, has_delete-last, NoRow-has_delete, NoRow-delete, first_row_sound,
}
use goreminder.Service.Repository.Reads.{Reads, get_task-Ensures}
use goreminder.Service.Repository.Transaction.{begin, commit, guarded, transaction, undo_on_failure}
use goreminder.Service.Frame.{
  Blind, record_history-Keeps, touch_user_activity-Keeps, purge_attachments-Keeps,
  notify_calendar_export-Keeps, require_related-Keeps, get_messenger_name-Keeps,
  publish_task_event-Keeps,
}
use goreminder.Service.Delete.{
  delete_children_in_tx, delete_in_tx, after_delete, delete_with_tx, delete_without_tx, delete_task,
}

-- the open transaction deletes the row
abbrev Deletes : ℕ → World → Type 0
Deletes id w = has_delete id w.pending ≡ true

-- no live row has the id
abbrev Gone : ℕ → World → Type 0
Gone id w = NoRow id w.tasks

Deletes-Blind : (id : ℕ) → Blind (Deletes id)
Deletes-Blind id = record {
  ticks = λ w h. h;
  queues = λ m w h. h;
  histories = λ m w h. h;
  exported = λ m w h. h;
  active = λ m w h. h;
  purged = λ m w h. h;
}

Gone-Blind : (id : ℕ) → Blind (Gone id)
Gone-Blind id = record {
  ticks = λ w h. h;
  queues = λ m w h. h;
  histories = λ m w h. h;
  exported = λ m w h. h;
  active = λ m w h. h;
  purged = λ m w h. h;
}

Keeps-Anything : {A : Type 0} (m : M A) → Keeps Anything m
Keeps-Anything m = record { at = λ w h. tt }

undo-gone :
    {A : Type 0} (Q : World → Type 0) (r : Outcome A) (w : World)
    → ((a : A) → r ≡ ok a → Q w)
    → (b : A) → (undo_on_failure r w).0 ≡ ok b
    → Q (undo_on_failure r w).1
undo-gone Q (ok a) w h b q = h a refl
undo-gone Q (err x) w h b q = cc
undo-gone Q panicked w h b q = cc

Ensures-guarded :
    {A : Type 0} (P Q : World → Type 0) (m : M A)
    → Ensures P m (λ _. Q)
    → Ensures P (guarded m) (λ _. Q)
unfolding guarded
Ensures-guarded P Q m k = record { at = λ w h b q. undo-gone Q (m w).0 (m w).1 (k.at w h) b q }

module _ (e : Env) (id : ℕ) where
  delete_tx-Ensures : Ensures Anything (delete_task_tx e id) (λ _. Deletes id)
  unfolding delete_task_tx tx_write ◌>>=◌ outside modify time_now
  delete_tx-Ensures = record {
    at = λ w h u q. elim (Option-cases (e.fault (w.calls + 1))) [
      | inl f ↦ ground (arith, has_delete-last id w.pending (e.clock w.calls))
      | inr (x, f) ↦ ground arith
    ];
  }

  commit-Ensures : Ensures (Deletes id) (commit e) (λ _. Gone id)
  unfolding commit ◌>>=◌ outside modify
  commit-Ensures = record {
    at = λ w h u q. elim (Option-cases (e.fault w.calls)) [
      | inl f ↦ ground (arith, NoRow-has_delete id w.pending w.tasks h)
      | inr (x, f) ↦ ground arith
    ];
  }

  transaction-Ensures :
      {A : Type 0} (body : M A)
      → Ensures Anything body (λ _. Deletes id)
      → Ensures Anything (transaction e body) (λ _. Gone id)
  unfolding transaction
  transaction-Ensures body k = Ensures-bind _ _ (Ensures-keeps _ (Keeps-Anything (begin e))) λ _.
      Ensures-guarded Anything (Gone id) _ (
        Ensures-bind body _ k
          λ a. Ensures-bind _ _ commit-Ensures λ _. Ensures-keeps _ (Keeps-pure a))

  plain_delete-Ensures : Ensures Anything (delete_row_of e id) (λ _. Gone id)
  unfolding delete_row_of ◌>>=◌ outside modify time_now
  plain_delete-Ensures = record {
    at = λ w h u q. elim (Option-cases (e.fault (w.calls + 1))) [
      | inl f ↦ ground (arith, NoRow-delete id (e.clock w.calls) w.tasks)
      | inr (x, f) ↦ ground arith
    ];
  }

  after_delete-Keeps : (t : Task) (ids : List ℕ) → Keeps (Gone id) (after_delete e t ids)
  unfolding after_delete
  after_delete-Keeps t ids = Keeps-then _ _ (record_history-Keeps e (Gone-Blind id) _) (
      Keeps-then _ _ (touch_user_activity-Keeps e (Gone-Blind id) _) (
        Keeps-then _ _ (purge_attachments-Keeps e (Gone-Blind id) _ _)
          (notify_calendar_export-Keeps e (Gone-Blind id) _ _)))

module _ (e : Env) where
  delete_in_tx-Ensures : (t : Task) → Ensures Anything (delete_in_tx e t) (λ _. Deletes t.id)
  unfolding delete_in_tx
  delete_in_tx-Ensures t =
      Ensures-bind _ _ (Ensures-keeps _ (Keeps-Anything (delete_children_in_tx e t))) λ ids.
        Ensures-bind _ _ (delete_tx-Ensures e t.id) λ _. Ensures-keeps _ (
          Keeps-bind _ _ (require_related-Keeps e (Deletes-Blind t.id).ticks _) λ related.
            Keeps-bind _ _ (get_messenger_name-Keeps e (Deletes-Blind t.id).ticks related) λ name.
              Keeps-then _ _ (publish_task_event-Keeps e (Deletes-Blind t.id) t _) (Keeps-pure ids))

  with_tx-Ensures : (t : Task) → Ensures Anything (delete_with_tx e t) (λ _. Gone t.id)
  unfolding delete_with_tx
  with_tx-Ensures t =
      Ensures-bind _ _ (transaction-Ensures e t.id _ (delete_in_tx-Ensures t))
        λ ids. Ensures-keeps _ (after_delete-Keeps e t.id t ids)

  refused : (t : Task) (x : Err) → Ensures Anything (raise x) (λ (_ : Unit {0}). Gone t.id)
  unfolding raise
  refused t x = record { at = λ w h u q. cc }

  without_tx-Ensures : (t : Task) → Ensures Anything (delete_without_tx e t) (λ _. Gone t.id)
  unfolding delete_without_tx
  without_tx-Ensures t =
      Ensures-if (has_recurrence_rule t) _ _ (λ _. refused t _)
        (λ _.
          Ensures-bind _ _ (plain_delete-Ensures e t.id)
            λ _. Ensures-keeps _ (after_delete-Keeps e t.id t []))

  loaded-Ensures :
      (id : ℕ) (t : Task)
      → Ensures
          (Reads id t)
          (if e.has_db then delete_with_tx e t else delete_without_tx e t)
          (λ _. Gone id)
  loaded-Ensures id t = record {
    at = λ w found u q.
        let sound = first_row_sound (is_row id) w.tasks t found in
        let same : t.id ≡ id = ground arith in
        subst
          (λ i.
            NoRow i ((if e.has_db then delete_with_tx e t else delete_without_tx e t) w).1.tasks)
          same
          ((Ensures-if e.has_db _ _ (λ _. with_tx-Ensures t) (λ _. without_tx-Ensures t)).at w tt u
            q);
  }

  delete_task-Ensures : (id : ℕ) → Ensures Anything (delete_task e id) (λ _. Gone id)
  unfolding delete_task
  delete_task-Ensures id = Ensures-bind _ _ (get_task-Ensures e id) (loaded-Ensures id)

-- After a successful DeleteTask no live row has the id, on either of its paths.
pub delete_task-deletes :
    (e : Env) (id : ℕ) (w : World)
    → (delete_task e id w).0 ≡ ok tt
    → first_row (is_row id) (delete_task e id w).1.tasks ≡ none
delete_task-deletes e id w done = (delete_task-Ensures e id).at w tt tt done
