-- ===== src/Service/Mute/Silence.antt =====
-- The table after MuteTask (internal/service/task_service.go).
use goreminder.Prelude.{
  ℕ, ◌≡◌, refl, true, some, List, [], ◌∷◌, arith, Option-cases, if◌then◌else◌, inl, inr,
}
use goreminder.Errors.{Err, Outcome, ok, err, panicked}
use goreminder.Models.{Task, status_deleted}
use goreminder.Service.World.{Env, World, update, pure, raise, outside, modify, ◌>>=◌}
use goreminder.Service.World.Keeps.{
  Keeps, Keeps-pure, Keeps-lift, Keeps-attempt, Keeps-best_effort, Keeps-if, Keeps-then, Keeps-bind,
  Keeps-outside, Keeps-modify,
}
use goreminder.Service.World.Ensures.{Ensures, Anything, Ensures-keeps, Ensures-if, Ensures-bind}
use goreminder.Service.Repository.{
  has_status, is_row, first_row, update_row, update_task, apply_write,
}
use goreminder.Service.Repository.Rows.{first_row_sound, first_row-update_where}
use goreminder.Service.Repository.Reads.{Reads, get_task-Ensures}
use goreminder.Service.Frame.{
  Blind, get_child_tasks-Keeps, build_delete_task_event-Keeps, publish_task_event-Keeps,
  record_history-Keeps, touch_user_activity-Keeps,
}
use goreminder.Service.Mute.{
  with_muted, publish_removal, mute_child, mute_children, for_loaded, for_children, mute_open,
  mute_task,
}

-- A read by id finds a muted row.
abbrev pub ReadsMuted : ℕ → World → Type 0
ReadsMuted id w = (t : Task) × (first_row (is_row id) w.tasks ≡ some t) × (t.muted ≡ true)

ReadsMuted-Blind : (id : ℕ) → Blind (ReadsMuted id)
ReadsMuted-Blind id = record {
  ticks = λ w h. h;
  queues = λ m w h. h;
  histories = λ m w h. h;
  exported = λ m w h. h;
  active = λ m w h. h;
  purged = λ m w h. h;
}

-- an update that stores a muted row
muted_update :
    (id : ℕ) (new : Task) (w : World)
    → new.muted ≡ true
    → ReadsMuted id w
    → ReadsMuted id (record w { tasks = apply_write (update new) w.tasks })
unfolding apply_write
muted_update id new w m (t, found, muted) =
    let moved = first_row-update_where id (is_row new.id) new w.tasks in
    (if is_row new.id t then update_row new t else t, cc moved, ground arith)

module _ (e : Env) (id : ℕ) where
  removal-Keeps : (t : Task) → Keeps (ReadsMuted id) (publish_removal e t)
  unfolding publish_removal
  removal-Keeps t = Keeps-best_effort _ (
      Keeps-bind _ _ (build_delete_task_event-Keeps e (ReadsMuted-Blind id).ticks t)
        λ event. publish_task_event-Keeps e (ReadsMuted-Blind id) t event)

  update-Keeps : (t : Task) → t.muted ≡ true → Keeps (ReadsMuted id) (update_task e t)
  unfolding update_task
  update-Keeps t m =
      Keeps-then _ _ (Keeps-outside e (λ w h. h)) (Keeps-modify _ (λ w h. muted_update id t w m h))

  mute_child-Keeps : (c : Task) → Keeps (ReadsMuted id) (mute_child e c)
  unfolding mute_child
  mute_child-Keeps c =
      Keeps-if _ _ _ (λ _. Keeps-pure tt)
        (λ _. Keeps-best_effort _ (
          Keeps-then _ _ (update-Keeps (with_muted e true c) refl)
            (removal-Keeps (with_muted e true c))))

  mute_children-Keeps : (cs : List Task) → Keeps (ReadsMuted id) (mute_children e cs)
  unfolding mute_children
  mute_children-Keeps [] = Keeps-pure tt
  mute_children-Keeps (c ∷ cs) = Keeps-then _ _ (mute_child-Keeps c) (mute_children-Keeps cs)

  for_loaded-Keeps :
      (r : Outcome (List Task)) → Keeps (ReadsMuted id) (for_loaded e (mute_children e) r)
  unfolding for_loaded
  for_loaded-Keeps (ok cs) = mute_children-Keeps cs
  for_loaded-Keeps (err x) = Keeps-pure tt
  for_loaded-Keeps panicked = Keeps-lift panicked

  for_children-Keeps : (t : Task) → Keeps (ReadsMuted id) (for_children e t (mute_children e))
  unfolding for_children
  for_children-Keeps t =
      Keeps-if _ _ _
        (λ _.
          Keeps-bind _ _ (Keeps-attempt _ (get_child_tasks-Keeps e (λ w h. h) t.id))
            for_loaded-Keeps)
        (λ _. Keeps-pure tt)

  first_update-Ensures :
      (t : Task) → Ensures (Reads id t) (update_task e (with_muted e true t)) (λ _. ReadsMuted id)
  unfolding update_task ◌>>=◌ outside modify apply_write
  first_update-Ensures t = record {
    at = λ w found u q.
        let same = first_row_sound (is_row id) w.tasks t found in
        let moved = first_row-update_where id (is_row t.id) (with_muted e true t) w.tasks in
        elim (Option-cases (e.fault w.calls)) [
          | inl f ↦ (update_row (with_muted e true t) t, ground arith, refl)
          | inr (x, f) ↦ ground arith
        ];
  }

  mute_open-Ensures : (t : Task) → Ensures (Reads id t) (mute_open e t) (λ _. ReadsMuted id)
  unfolding mute_open
  mute_open-Ensures t = Ensures-bind _ _ (first_update-Ensures t) λ _. Ensures-keeps _ (
      Keeps-then _ _ (for_children-Keeps _) (
        Keeps-then _ _ (removal-Keeps _) (
          Keeps-then _ _ (record_history-Keeps e (ReadsMuted-Blind id) _)
            (Keeps-then _ _ (touch_user_activity-Keeps e (ReadsMuted-Blind id) _) (Keeps-pure _)))))

  already_muted : (t : Task) → t.muted ≡ true → Ensures (Reads id t) (pure t) (λ _. ReadsMuted id)
  unfolding pure
  already_muted t m = record { at = λ w found u q. (t, found, m) }

  never : (t : Task) (x : Err) → Ensures (Reads id t) (raise x) (λ (_ : Task). ReadsMuted id)
  unfolding raise
  never t x = record { at = λ w found u q. cc }

  mute_task-Ensures : Ensures Anything (mute_task e id) (λ _. ReadsMuted id)
  unfolding mute_task
  mute_task-Ensures = Ensures-bind _ _ (get_task-Ensures e id) λ t.
      Ensures-if (has_status t status_deleted) _ _ (λ _. never t _)
        (λ _. Ensures-if t.muted _ _ (already_muted t) (λ _. mute_open-Ensures t))

-- After a successful MuteTask the row of the task is there and muted, whatever happened to its
-- children, to the messages and to the history.
pub mute_task-mutes :
    (e : Env) (id : ℕ) (task : Task) (w : World)
    → (mute_task e id w).0 ≡ ok task
    → (t : Task) × (first_row (is_row id) (mute_task e id w).1.tasks ≡ some t) × (t.muted ≡ true)
mute_task-mutes e id task w done = (mute_task-Ensures e id).at w tt task done
