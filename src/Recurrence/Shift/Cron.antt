-- ===== src/Recurrence/Shift/Cron.antt =====
-- Shifting a cron expression of task_recurrence.go from a completion date.
use goreminder.Prelude.{
  ℕ, zero, suc, ◌≤◌, ◌≡◌, refl, Bool, true, false, not, ◌&&◌, List, [], ◌∷◌, arith, leb, Bool-cases,
  if◌then◌else◌, inl, inr,
}
use mathlib.Core.Path.{subst}
use goreminder.Text.Laws.{text_eq→eq}
use goreminder.Text.{
  Text, codes, itoa, itoa_fuel, atoi, digits_value, unsigned_value, is_digit, contains_any,
}
use goreminder.Errors.{ok}
use goreminder.Clock.{Time, weekday}
use goreminder.Clock.Civil.{month_of, day_of_month}
use goreminder.Clock.Bounds.{weekday-lt, month_day_range}
use goreminder.Recurrence.Shift.{is_star, single_cron_number, shift_cron_fields, shift_cron_parts}

-- a test holds at a number and at all the numbers below it
holds_up_to : (ℕ → Bool) → ℕ → Bool
holds_up_to test zero = test 0
holds_up_to test (suc top) = if test (suc top) then holds_up_to test top else false

holds_up_to-at :
    (test : ℕ → Bool) (top k : ℕ) → k ≤ top → holds_up_to test top ≡ true → test k ≡ true
unfolding holds_up_to
holds_up_to-at test zero zero below held = held
holds_up_to-at test zero (suc k) below held = absurd (omega arith)
holds_up_to-at test (suc top) k below held = ground (arith, holds_up_to-at test top k)

-- Printed numbers of a range: read back as single numbers of the range, and never "*".
abbrev prints_single : ℕ → ℕ → ℕ → Bool
prints_single low high n =
    if leb low n && leb n high
    then single_cron_number (itoa n) low high && not (is_star (itoa n))
    else true

tables :
    (holds_up_to (prints_single 0 7) 7 ≡ true)
    × (holds_up_to (prints_single 1 31) 31 ≡ true)
    × (holds_up_to (prints_single 1 12) 12 ≡ true)
unfolding holds_up_to single_cron_number contains_any itoa itoa_fuel atoi unsigned_value
    digits_value is_digit
tables = (refl, refl, refl)

star_is_no_number : (low high : ℕ) → single_cron_number (codes "*") low high ≡ false
unfolding single_cron_number contains_any
star_is_no_number low high = refl

-- A single number is not "*".
single-not_star :
    (s : Text) (low high : ℕ) → single_cron_number s low high ≡ true → is_star s ≡ false
single-not_star s low high h = elim (Bool-cases (is_star s)) [
  | inl e ↦
      let number : single_cron_number (codes "*") low high ≡ true =
        subst (λ t. single_cron_number t low high ≡ true) (text_eq→eq s _ e) h in
      cc (star_is_no_number low high)
  | inr e ↦ e
]

-- What is printed for a date is a number of its field, and not "*".
record Printed (t : Time) : Type 0 where
  dow_single : single_cron_number (itoa (weekday t)) 0 7 ≡ true
  dow_not_star : is_star (itoa (weekday t)) ≡ false
  dom_single : single_cron_number (itoa (day_of_month t)) 1 31 ≡ true
  dom_not_star : is_star (itoa (day_of_month t)) ≡ false
  month_single : single_cron_number (itoa (month_of t)) 1 12 ≡ true
  month_not_star : is_star (itoa (month_of t)) ≡ false

printed : (t : Time) → Printed t
printed t =
    let w = weekday-lt t in
    let (mo, d) = month_day_range t in
    let wp = holds_up_to-at (prints_single 0 7) 7 (weekday t) (omega arith) tables.0 in
    let dp = holds_up_to-at (prints_single 1 31) 31 (day_of_month t) (omega arith) tables.1 in
    let mp = holds_up_to-at (prints_single 1 12) 12 (month_of t) (omega arith) tables.2 in
    record {
      dow_single = ground arith;
      dow_not_star = ground arith;
      dom_single = ground arith;
      dom_not_star = ground arith;
      month_single = ground arith;
      month_not_star = ground arith;
    }

shift_cron_fields-again :
    (m h dom mo dow : Text) (q : List Text) (a b : Time)
    → single_cron_number m 0 59 ≡ true
    → single_cron_number h 0 23 ≡ true
    → shift_cron_fields m h dom mo dow a ≡ ok q
    → shift_cron_parts q b ≡ shift_cron_fields m h dom mo dow b
unfolding shift_cron_fields shift_cron_parts
shift_cron_fields-again m h dom mo dow q a b sm sh e =
    let pa = printed a in
    ground (arith, single-not_star dow 0 7, single-not_star dom 1 31, single-not_star mo 1 12)

-- Two shifts of a cron expression in a row are one shift from the later completion: the shifted
-- expression is accepted again, with the same answer as the original one at every date.
pub shift_cron_parts-again :
    (parts q : List Text) (a b : Time)
    → shift_cron_parts parts a ≡ ok q
    → shift_cron_parts q b ≡ shift_cron_parts parts b
unfolding shift_cron_parts
shift_cron_parts-again (m ∷ h ∷ dom ∷ mo ∷ dow ∷ []) q a b e =
    ground (arith, shift_cron_fields-again m h dom mo dow q a b)
shift_cron_parts-again parts q a b e = cc

-- The minute and the hour of the expression are never changed.
shift_cron_parts-keeps_clock :
    (m h dom mo dow : Text) (q : List Text) (a : Time)
    → shift_cron_parts (m ∷ h ∷ dom ∷ mo ∷ dow ∷ []) a ≡ ok q
    → (rest : List Text) × (q ≡ m ∷ h ∷ rest)
unfolding shift_cron_parts shift_cron_fields
shift_cron_parts-keeps_clock m h dom mo dow q a e = ground arith
