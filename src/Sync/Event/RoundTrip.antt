-- ===== src/Sync/Event/RoundTrip.antt =====
-- The number of the task in an exported event (internal/service/calendar_sync_helpers.go).
use goreminder.Prelude.{
  ℕ, zero, suc, ◌+◌, ◌-◌, ◌*◌, ◌/◌, ◌%◌, ◌≡◌, ◌≤◌, ◌<◌, ap, ◌∙◌, Bool, true, false, Option, none,
  some, [], ◌∷◌, ◌++◌, null, ltb, arith, Bool-cases, inl, inr,
}
use goreminder.Prelude.Int.{ℤ, pos}
use goreminder.Text.{Text, is_digit, digits_value, unsigned_value, atoi, itoa_fuel, itoa}
use goreminder.Models.{Task}
use goreminder.Recurrence.Rules.{Libraries}
use goreminder.Sync.Event.{task_id_from_extended_properties, build_export_event}

abbrev shifted : ℕ → Option ℕ → Option ℕ
shifted d none = none
shifted d (some v) = some (v * 10 + d)

-- one more digit at the end
digits-snoc :
    (d : ℕ)
    → d < 10
    → (s : Text) (n : ℕ) → digits_value n (s ++ (48 + d) ∷ []) ≡ shifted d (digits_value n s)
unfolding digits_value is_digit
digits-snoc d small [] n = ground arith
digits-snoc d small (c ∷ s) n = let rest = digits-snoc d small s (n * 10 + (c - 48)) in ground arith

one_digit : (n : ℕ) → n < 10 → digits_value 0 ((48 + n) ∷ []) ≡ some n
unfolding digits_value is_digit
one_digit n h = ground arith

digits-itoa : (fuel n : ℕ) → n < fuel → digits_value 0 (itoa_fuel fuel n) ≡ some n
unfolding itoa_fuel
digits-itoa zero n h = absurd (omega arith)
digits-itoa (suc fuel) n h = elim (Bool-cases (ltb n 10)) [
  | inl y ↦ let single = one_digit n (ground arith) in ground arith
  | inr m ↦
      let small : n / 10 < fuel = grind arith in
      let rest = digits-itoa fuel (n / 10) small in
      let more = digits-snoc (n % 10) (omega arith) (itoa_fuel fuel (n / 10)) 0 in
      let whole : n / 10 * 10 + n % 10 ≡ n = omega arith in
      let value : digits_value 0 (itoa_fuel fuel (n / 10) ++ (48 + n % 10) ∷ []) ≡ some n =
        more ∙ ap (shifted (n % 10)) rest ∙ ap some whole in
      cc (m, value)
]

-- it starts with a digit
abbrev starts_with_digit : Text → Bool
starts_with_digit [] = false
starts_with_digit (c ∷ s) = is_digit c

starts-append : (s t : Text) → starts_with_digit s ≡ true → starts_with_digit (s ++ t) ≡ true
starts-append [] t h = cc
starts-append (c ∷ s) t h = h

starts-itoa : (fuel n : ℕ) → n < fuel → starts_with_digit (itoa_fuel fuel n) ≡ true
unfolding itoa_fuel is_digit
starts-itoa zero n h = absurd (omega arith)
starts-itoa (suc fuel) n h = elim (Bool-cases (ltb n 10)) [
  | inl y ↦ ground arith
  | inr m ↦
      let small : n / 10 < fuel = grind arith in
      let rest =
        starts-append (itoa_fuel fuel (n / 10)) ((48 + n % 10) ∷ [])
          (starts-itoa fuel (n / 10) small) in
      cc (m, rest)
]

atoi-digits :
    (s : Text) (n : ℕ)
    → starts_with_digit s ≡ true
    → digits_value 0 s ≡ some n
    → n ≤ 9223372036854775807
    → (null s ≡ false) × (atoi s ≡ some (pos n))
unfolding atoi unsigned_value is_digit
atoi-digits [] n h v small = cc
atoi-digits (c ∷ s) n h v small = ground arith

-- The number in the property of an exported event, read back by an import, is the number of the
-- task, if that is an int64.
pub build_export_event-task_id :
    (lib : Libraries) (task : Task) (minutes : ℤ) (existing : Option ℤ)
    → task.id ≤ 9223372036854775807
    → task_id_from_extended_properties
        (build_export_event lib task minutes existing).task_id_property
      ≡ some (pos task.id)
unfolding build_export_event task_id_from_extended_properties itoa
build_export_event-task_id lib task minutes existing small =
    let enough : task.id < suc task.id = omega arith in
    let (filled, read) =
      atoi-digits (itoa_fuel (suc task.id) task.id) task.id
        (starts-itoa (suc task.id) task.id enough) (digits-itoa (suc task.id) task.id enough)
        small in
    cc (filled, read)
