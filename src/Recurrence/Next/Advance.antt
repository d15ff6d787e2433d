-- ===== src/Recurrence/Next/Advance.antt =====
-- Where the next occurrences of internal/service/task_recurrence.go lie.
use goreminder.Prelude.{
  ◌≤◌, ◌<◌, ◌≡◌, ◌≢◌, refl, ◌⊎◌, inl, inr, Option, none, some, arith, Option-cases, if◌then◌else◌,
}
use goreminder.Text.{Text, trim_space}
use goreminder.Errors.{Outcome, ok, err, panicked, other, ◌>>=◌}
use goreminder.Clock.{Time, is_zero}
use goreminder.Models.{Task}
use goreminder.Recurrence.Rules.{Libraries, ROption, anchored_rule, with_dtstart}
use goreminder.Recurrence.Next.{
  text_or_empty, cron_next, next_start_from_rrule, advance_if_before, next_recurrence_after,
  next_from_parent, next_executable_start_date,
}

-- What the documentation of cronexpr and rrule-go says: the answer is the zero time or lies
-- strictly after the argument.
pub record Advances (lib : Libraries) : Type 0 where
  pub cron_advances :
      (s : Text) (next : Time → Time) (t : Time)
      → lib.parse_cron s ≡ some next
      → (next t ≡ 0) ⊎ (t < next t)
  pub rrule_advances :
      (opt : ROption) (rule : Time → Time) (t : Time)
      → lib.new_rrule opt ≡ some rule
      → (rule t ≡ 0) ⊎ (t < rule t)

-- zero, or not before `now`
abbrev pub Ahead : Time → Time → Type 0
Ahead now t = (t ≡ 0) ⊎ (now ≤ t)

-- The expression, if it parses, has an occurrence after `now`: Next does not give the zero time.
abbrev pub HasNext : Libraries → Text → Time → Type 0
HasNext lib s now = (next : Time → Time) → lib.parse_cron s ≡ some next → next now ≢ 0

module _ (lib : Libraries) (adv : Advances lib) where
  pub cron_next-Ahead : (s : Text) (now t : Time) → cron_next lib s now ≡ ok t → Ahead now t
  unfolding cron_next
  cron_next-Ahead s now t h = elim (Option-cases (lib.parse_cron s)) [
    | inl e ↦ ground arith
    | inr (f, e) ↦ ground (arith, adv.cron_advances s f now e)
  ]

  anchored_rule-advances :
      (s : Text) (start : Time) (rule : Time → Time) (now : Time)
      → anchored_rule lib s start ≡ ok rule
      → (rule now ≡ 0) ⊎ (now < rule now)
  unfolding anchored_rule
  anchored_rule-advances s start rule now h = elim (Option-cases (lib.parse_rrule (trim_space s))) [
    | inl e ↦ ground arith
    | inr (opt, e) ↦ elim (Option-cases (lib.new_rrule (with_dtstart start opt))) [
      | inl f ↦ ground arith
      | inr (r, f) ↦ ground (arith, adv.rrule_advances (with_dtstart start opt) r now f)
    ]
  ]

  -- An RRULE gives an instant strictly after `now`, or an error.
  pub next_start_from_rrule-lt :
      (now : Time) (s : Text) (start t : Time)
      → next_start_from_rrule lib now s start ≡ ok t
      → now < t
  unfolding next_start_from_rrule
  next_start_from_rrule-lt now s start t h = from (anchored_rule lib s start) refl h
    where
      from :
          (r : Outcome (Time → Time))
          → anchored_rule lib s start ≡ r
          → (r >>= λ rule. if is_zero (rule now) then err other else ok (rule now)) ≡ ok t
          → now < t
      from (ok rule) e q = ground (arith, anchored_rule-advances s start rule now e)
      from (err x) e q = cc
      from panicked e q = cc

  -- What a cron series answers, where the expression has an occurrence after `now`.
  cron_series-lt :
      (s : Text) (now t : Time)
      → HasNext lib s now
      → (cron_next lib s now >>= λ next. advance_if_before lib s now next) ≡ ok t
      → now < t
  unfolding cron_next advance_if_before
  cron_series-lt s now t live h = elim (Option-cases (lib.parse_cron s)) [
    | inl e ↦ ground arith
    | inr (f, e) ↦ ground (arith, adv.cron_advances s f now e, live f e)
  ]

  -- If the libraries advance as documented and the cron expression of a series has an occurrence
  -- left, the next occurrence of the series lies strictly after `now`.
  pub next_recurrence_after-lt :
      (parent : Task) (now t : Time)
      → HasNext lib (text_or_empty parent.cron_expression) now
      → next_recurrence_after lib parent now ≡ ok t
      → now < t
  unfolding next_recurrence_after
  next_recurrence_after-lt parent now t live h = ground (
    arith,
    cron_series-lt (text_or_empty parent.cron_expression) now t live,
    next_start_from_rrule-lt now (text_or_empty parent.rrule) parent.start_date t,
  )

  own_start-Ahead :
      (task : Task) (now t : Time)
      → next_executable_start_date lib task none now ≡ ok t
      → Ahead now t
  unfolding next_executable_start_date next_from_parent
  own_start-Ahead task now t h = ground (
    arith,
    cron_next-Ahead (text_or_empty task.cron_expression) now t,
    next_start_from_rrule-lt now (text_or_empty task.rrule) task.start_date t,
  )

  -- If the libraries advance as documented and the cron expression of the parent, where there is
  -- one, has an occurrence left, the start date to publish is the zero time ("do not publish") or
  -- not in the past.
  pub next_executable_start_date-Ahead :
      (task : Task) (parent : Option Task) (now t : Time)
      → ((p : Task) → parent ≡ some p → HasNext lib (text_or_empty p.cron_expression) now)
      → next_executable_start_date lib task parent now ≡ ok t
      → Ahead now t
  unfolding next_executable_start_date next_from_parent
  next_executable_start_date-Ahead task none now t live h = own_start-Ahead task now t h
  next_executable_start_date-Ahead task (some parent) now t live h = ground (
    arith,
    cron_next-Ahead (text_or_empty task.cron_expression) now t,
    next_start_from_rrule-lt now (text_or_empty task.rrule) task.start_date t,
    next_recurrence_after-lt parent now t (live parent refl),
  )
