-- ===== src/Service/Reschedule/Days.antt =====
-- The 24-hour loop of RescheduleTask (internal/service/task_service.go).
use goreminder.Prelude.{
  ℕ, zero, suc, ◌+◌, ◌*◌, ◌/◌, ◌<◌, ◌≤◌, ◌≡◌, ◌⊎◌, refl, Option, none, some, inl, inr, arith,
  Bool-cases,
}
use goreminder.Errors.{Outcome, ok, err, panicked}
use goreminder.Clock.{Time, day, after}
use goreminder.Models.{Task}
use goreminder.Recurrence.Rules.{Libraries}
use goreminder.Recurrence.Next.{text_or_empty, next_recurrence_after}
use goreminder.Recurrence.Next.Advance.{Advances, HasNext, next_recurrence_after-lt}
use goreminder.Service.Reschedule.{
  add_days_until, next_day_same_time, follow_parent, rescheduled_start,
}

-- Where the loop stops, with the number of days it added.
add_days_until-stops :
    (fuel : ℕ) (now t : Time)
    → now < t + fuel * day
    → (k : ℕ) × (add_days_until fuel now t ≡ t + k * day)
      × (now < t + k * day)
      × ((k ≡ 0) ⊎ (t + k * day ≤ now + day))
unfolding add_days_until
add_days_until-stops zero now t h = (0, omega arith, omega arith, inl refl)
add_days_until-stops (suc fuel) now t h = elim (Bool-cases (after t now)) [
  | inl e ↦ (0, ground arith, ground arith, inl refl)
  | inr e ↦
      let (k, q, later, least) = add_days_until-stops fuel now (t + day) (omega arith) in
      (suc k, ground arith, omega arith, inr ground arith)
]

-- Whatever the old date, the loop ends with a whole number of days added, at least one, on the
-- first such date in the future: it is the next day, or at most one day away from now.
pub next_day_same_time_lem :
    (now start : Time)
    → (k : ℕ) × (next_day_same_time now start ≡ start + suc k * day)
      × (now < next_day_same_time now start)
      × ((k ≡ 0) ⊎ (next_day_same_time now start ≤ now + day))
unfolding next_day_same_time
next_day_same_time_lem now start =
    let (k, q, later, least) =
      add_days_until-stops (suc (now / day)) now (start + day) (omega arith) in
    (k, ground arith, ground arith, ground arith)

module _ (lib : Libraries) (adv : Advances lib) where
  follow_parent-lt :
      (task parent : Task) (start now t : Time)
      → HasNext lib (text_or_empty parent.cron_expression) now
      → now < start
      → (r : Outcome Time) → next_recurrence_after lib parent now ≡ r
      → follow_parent task start r ≡ ok t
      → now < t
  unfolding follow_parent
  follow_parent-lt task parent start now t live later (ok next) e h =
      ground (arith, next_recurrence_after-lt lib adv parent now next live e)
  follow_parent-lt task parent start now t live later (err x) e h = ground arith
  follow_parent-lt task parent start now t live later panicked e h = cc

  -- The start date that RescheduleTask computes is in the future, with or without a parent and
  -- whichever date it takes from it, if the libraries advance as documented and the cron
  -- expression of the parent has an occurrence left.
  pub rescheduled_start-lt :
      (task : Task) (parent : Option Task) (now t : Time)
      → ((p : Task) → parent ≡ some p → HasNext lib (text_or_empty p.cron_expression) now)
      → rescheduled_start lib task parent now ≡ ok t
      → now < t
  unfolding rescheduled_start
  rescheduled_start-lt task none now t live h =
      let (k, q, later, least) = next_day_same_time_lem now task.start_date in ground arith
  rescheduled_start-lt task (some parent) now t live h =
      let (k, q, later, least) = next_day_same_time_lem now task.start_date in
      ground (
        arith,
        follow_parent-lt task parent (next_day_same_time now task.start_date) now t
            (live parent refl) later (next_recurrence_after lib parent now) refl,
      )
