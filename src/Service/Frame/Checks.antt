-- ===== src/Service/Frame/Checks.antt =====
-- What the checks of internal/service/task_service.go leave alone: they only look rows up.
use goreminder.Prelude.{ℕ, Bool, true, false, not, ◌||◌, Option, none, some, is_some}
use goreminder.Errors.{Err, Outcome, ok, err, panicked, not_found, conflict, validation}
use goreminder.Clock.{Time, is_zero}
use goreminder.Models.{Task}
use goreminder.Recurrence.Rules.{recurrence_field_set, is_recurrence_parent_with_confirmation}
use goreminder.Service.World.{Env, World, tick}
use goreminder.Service.World.Keeps.{
  Keeps, Keeps-pure, Keeps-raise, Keeps-lift, Keeps-attempt, Keeps-if, Keeps-then, Keeps-bind,
  Keeps-outside, Keeps-time_now,
}
use goreminder.Service.Series.{
  require_that, get_sync_link, unlinked_of, require_unlinked_in, require_unlinked,
}
use goreminder.Service.Create.{check_rrule, clock_of, validate_shift_from_completion_series}

pub require_that-Keeps : {P : World → Type 0} (b : Bool) (x : Err) → Keeps P (require_that b x)
unfolding require_that
require_that-Keeps true x = Keeps-pure tt
require_that-Keeps false x = Keeps-raise x

module _ (e : Env) {P : World → Type 0} (ticks : (w : World) → P w → P (tick w)) where
  get_sync_link-Keeps : (linked : ℕ → Bool) (id : ℕ) → Keeps P (get_sync_link e linked id)
  unfolding get_sync_link
  get_sync_link-Keeps linked id =
      Keeps-then _ _ (Keeps-outside e ticks)
        (Keeps-if (linked id) _ _ (λ _. Keeps-pure tt) (λ _. Keeps-raise not_found))

  unlinked_of-Keeps : (r : Outcome (Unit {0})) → Keeps P (unlinked_of e r)
  unfolding unlinked_of
  unlinked_of-Keeps (ok a) = Keeps-raise conflict
  unlinked_of-Keeps (err not_found) = Keeps-pure tt
  unlinked_of-Keeps (err x) = Keeps-raise _
  unlinked_of-Keeps panicked = Keeps-lift panicked

  require_unlinked_in-Keeps :
      (o : Option (ℕ → Bool)) (id : ℕ) → Keeps P (require_unlinked_in e o id)
  unfolding require_unlinked_in
  require_unlinked_in-Keeps none id = Keeps-pure tt
  require_unlinked_in-Keeps (some linked) id =
      Keeps-bind _ _ (Keeps-attempt _ (get_sync_link-Keeps linked id)) unlinked_of-Keeps

  pub require_unlinked-Keeps : (id : ℕ) → Keeps P (require_unlinked e id)
  unfolding require_unlinked
  require_unlinked-Keeps id = require_unlinked_in-Keeps e.sync_link id

  pub check_rrule-Keeps : (t : Task) → Keeps P (check_rrule e t)
  unfolding check_rrule
  check_rrule-Keeps t =
      Keeps-if (recurrence_field_set t.rrule) _ _ (λ _. Keeps-lift _) (λ _. Keeps-pure tt)

  clock_of-Keeps : (t : Time) → Keeps P (clock_of e t)
  unfolding clock_of
  clock_of-Keeps t = Keeps-if (is_zero t) _ _ (λ _. Keeps-time_now e ticks) (λ _. Keeps-pure t)

  pub validate_shift-Keeps : (t : Task) → Keeps P (validate_shift_from_completion_series e t)
  unfolding validate_shift_from_completion_series
  validate_shift-Keeps t =
      Keeps-if (not t.shift_from_completion) _ _ (λ _. Keeps-pure tt)
        λ _.
          Keeps-if (is_some t.parent_id || not (is_recurrence_parent_with_confirmation t)) _ _
            (λ _. Keeps-raise validation)
            λ _.
              Keeps-bind _ _ (clock_of-Keeps t.start_date)
                λ clock. Keeps-then _ _ (Keeps-lift _) (Keeps-pure tt)
