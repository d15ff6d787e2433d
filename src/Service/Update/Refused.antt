-- ===== src/Service/Update/Refused.antt =====
-- Requests that UpdateTask (internal/service/task_service.go) refuses.
use goreminder.Prelude.{ℕ, ◌≡◌, refl, false, ◌==◌}
use mathlib.Core.Path.{ap, ◌∙◌}
use goreminder.Errors.{Outcome, ok, err, panicked, is_ok}
use goreminder.Models.{Task}
use goreminder.Service.World.{Env, World, M, continue, tick, ◌>>=◌}
use goreminder.Service.World.Keeps.{Keeps, Keeps-lift, Keeps-pure, Keeps-if, Keeps-then, Keeps-bind}
use goreminder.Service.World.Returns.{run_after}
use goreminder.Service.Repository.{get_task}
use goreminder.Service.Frame.{get_task-Keeps}
use goreminder.Service.Frame.Checks.{
  require_unlinked-Keeps, check_rrule-Keeps, validate_shift-Keeps,
}
use goreminder.Service.Update.Request.{TaskUpdateRequest, Change, enabling_shift}
use goreminder.Service.Update.{
  reject_shift_when_linked, check_change, checked_change, update_found, update_task,
}

module _ (e : Env) {P : World → Type 0} (ticks : (w : World) → P w → P (tick w)) where
  reject_shift-Keeps : (id : ℕ) → Keeps P (reject_shift_when_linked e id)
  unfolding reject_shift_when_linked
  reject_shift-Keeps id =
      Keeps-if (id == 0) _ _ (λ _. Keeps-pure tt) (λ _. require_unlinked-Keeps e ticks id)

  check_change-Keeps : (c : Change) → Keeps P (check_change e c)
  unfolding check_change
  check_change-Keeps c = Keeps-then _ _ (Keeps-lift _) (
      Keeps-then _ _ (check_rrule-Keeps e ticks c.new) (
        Keeps-then _ _ (validate_shift-Keeps e ticks c.new) (
          Keeps-if (enabling_shift c) _ _ (λ _. reject_shift-Keeps c.new.id) (λ _. Keeps-pure tt))))

  checked_change-Keeps : (old : Task) (r : TaskUpdateRequest) → Keeps P (checked_change e old r)
  unfolding checked_change
  checked_change-Keeps old r =
      Keeps-bind _ _ (Keeps-lift _) λ new. Keeps-then _ _ (check_change-Keeps _) (Keeps-pure _)

-- The state but for the number of calls.
abbrev IsAsBefore : World → World → Type 0
IsAsBefore before w = record w { calls = 0 } ≡ record before { calls = 0 }

refused :
    {A B : Type 0} (r : Outcome A) (f : A → M B) (w : World)
    → is_ok r ≡ false
    → (is_ok (continue r f w).0 ≡ false) × ((continue r f w).1 ≡ w)
refused (ok a) f w h = cc
refused (err x) f w h = (refl, refl)
refused panicked f w h = (refl, refl)

update_found-refused :
    (e : Env) (r : TaskUpdateRequest) (old : Task) (w : World)
    → is_ok (checked_change e old r w).0 ≡ false
    → (is_ok (update_found e r old w).0 ≡ false) × IsAsBefore w (update_found e r old w).1
unfolding update_found ◌>>=◌
update_found-refused e r old w h =
    let (failed, same) = refused (checked_change e old r w).0 _ (checked_change e old r w).1 h in
    let kept = (checked_change-Keeps e {P = IsAsBefore w} (λ w' h'. h') old r).at w refl in
    (failed, ap {A = World} (λ w'. record w' { calls = 0 }) same ∙ kept)

-- Where the row exists but the request of UpdateTask does not pass the checks - a status, an offset
-- or a rule that is not valid, or a series that may not shift from its completions - the update
-- fails and leaves rows, messages, history and everything else as it was; only calls were made.
pub update_task-refused :
    (e : Env) (id : ℕ) (r : TaskUpdateRequest) (w : World) (old : Task)
    → (get_task e id w).0 ≡ ok old
    → is_ok (checked_change e old r (get_task e id w).1).0 ≡ false
    → (is_ok (update_task e id r w).0 ≡ false)
      × (record (update_task e id r w).1 { calls = 0 } ≡ record w { calls = 0 })
unfolding update_task
update_task-refused e id r w old found h =
    let run = run_after (get_task e id) (update_found e r) w old found in
    let kept = (get_task-Keeps e {P = IsAsBefore w} (λ w' h'. h') id).at w refl in
    let (failed, same) = update_found-refused e r old (get_task e id w).1 h in
    (
      cc (run, failed),
      ap {A = Outcome Task × World} (λ out. record out.1 { calls = 0 }) run ∙ same ∙ kept,
    )
