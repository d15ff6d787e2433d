-- ===== src/Recurrence/Shift.antt =====
-- internal/service/task_recurrence.go: a confirmation series re-anchored to a completion date.
pub mod Cron
use goreminder.Prelude.{
  ℕ, Bool, true, false, not, ◌&&◌, ◌||◌, Option, none, some, List, [], ◌∷◌, ◌++◌, null, length,
  get_elem?, ltb, ◌==◌, if◌then◌else◌,
}
use goreminder.Prelude.Int.{ℤ, pos, ltb_ℤ, leb_ℤ}
use goreminder.Text.{
  Text, codes, text_eq, trim_space, to_upper, contains, contains_any, trim_prefix, split, fields,
  join, cut, atoi, itoa,
}
use goreminder.Errors.{Outcome, ok, err, panicked, not_shiftable, or_err, require, ◌>>=◌, ◌>>◌}
use goreminder.Clock.{Time, is_zero, date_of, hour_of, minute_of, second_of, date_time, weekday}
use goreminder.Clock.Civil.{month_of, day_of_month}
use goreminder.Models.{Task}
use goreminder.Recurrence.Rules.{
  Libraries, ROption, Frequency, yearly, monthly, weekly, daily, hourly, minutely, secondly,
  recurrence_field_set, has_recurrence_rule, validate_rrule_string, from_option,
}
use goreminder.Recurrence.Next.{next_recurrence_after, text_or_empty}

pub record CompletionShift : Type 0 where
  pub anchor : Time
  pub next_start : Time
  pub cron : Option Text
  pub rrule : Option Text

unfoldable pub completion_anchor : Time → Time → Time
completion_anchor completed_at clock =
    date_time (date_of completed_at) (hour_of clock) (minute_of clock) (second_of clock)

abbrev in_range : ℕ → ℕ → Option ℤ → Bool
in_range low high none = false
in_range low high (some n) = leb_ℤ (pos low) n && leb_ℤ n (pos high)

unfoldable pub single_cron_number : Text → ℕ → ℕ → Bool
single_cron_number field low high =
    if contains_any field (codes ",-*/") then false else in_range low high (atoi field)

abbrev star : Text
star = codes "*"

abbrev pub is_star : Text → Bool
is_star s = text_eq s star

-- the `switch` over the last three of the five fields
unfoldable pub shift_cron_fields : Text → Text → Text → Text → Text → Time → Outcome (List Text)
shift_cron_fields minute hour dom month dow anchor =
    if is_star dom && is_star month && is_star dow
    then ok (minute ∷ hour ∷ dom ∷ month ∷ dow ∷ [])
    else if is_star dom && is_star month && single_cron_number dow 0 7
    then ok (minute ∷ hour ∷ star ∷ star ∷ itoa (weekday anchor) ∷ [])
    else if is_star month && is_star dow && single_cron_number dom 1 31
    then ok (minute ∷ hour ∷ itoa (day_of_month anchor) ∷ star ∷ star ∷ [])
    else if is_star dow && single_cron_number dom 1 31 && single_cron_number month 1 12
    then ok (minute ∷ hour ∷ itoa (day_of_month anchor) ∷ itoa (month_of anchor) ∷ star ∷ [])
    else err not_shiftable

unfoldable pub shift_cron_parts : List Text → Time → Outcome (List Text)
shift_cron_parts (minute ∷ hour ∷ dom ∷ month ∷ dow ∷ []) anchor =
    if not (single_cron_number minute 0 59) || not (single_cron_number hour 0 23)
    then err not_shiftable
    else shift_cron_fields minute hour dom month dow anchor
shift_cron_parts parts anchor = err not_shiftable

unfoldable pub shift_cron_from_completion : Text → Time → Outcome Text
shift_cron_from_completion expr anchor = do
  parts ← shift_cron_parts (fields (trim_space expr)) anchor
  ok (join (codes " ") parts)

-- a table indexed by time.Weekday; an index out of range panics
unfoldable pub rrule_weekday_token : ℕ → Outcome Text
rrule_weekday_token wd =
    elim (get_elem?
      (codes "SU"
        ∷ codes "MO"
        ∷ codes "TU"
        ∷ codes "WE"
        ∷ codes "TH"
        ∷ codes "FR"
        ∷ codes "SA"
        ∷ [])
      wd) [ some token ↦ ok token | none ↦ panicked ]

-- the map `repl` of the source: at most one value for each of its three keys
abbrev Replacements : Type 0
Replacements = List (Text × Text)

unfoldable pub take_replacement : Text → Replacements → Option Text × Replacements
take_replacement key [] = (none, [])
take_replacement key ((k, v) ∷ rest) =
    let (found, left) = take_replacement key rest in
    if text_eq k key then (some v, rest) else (found, (k, v) ∷ left)

abbrev replaced : Text → Text → Option Text → Text
replaced part upper none = part
replaced part upper (some next) = upper ++ codes "=" ++ next

-- the loop over the parts: what it appends to `out`, and what is left of `repl`
unfoldable pub replace_parts : List Text → Replacements → Outcome (List Text × Replacements)
replace_parts [] repl = ok ([], repl)
replace_parts (raw ∷ parts) repl =
    let part = trim_space raw in
    let (key, found) = cut b'=' part in
    let upper = to_upper (trim_space key) in
    let (next, left) = take_replacement upper repl in
    let rest : Outcome (List Text × Replacements) = replace_parts parts left in
    if not found || null (trim_space key)
    then err not_shiftable
    else (do (out, remaining) ← rest; ok (replaced part upper next ∷ out, remaining))

unfoldable pub replace_rrule_parts : Text → Replacements → Outcome Text
replace_rrule_parts raw repl = do
  (out, left) ← replace_parts (split b';' (trim_prefix (trim_space raw) (codes "RRULE:"))) repl
  if null left then ok (join (codes ";") out) else err not_shiftable

unfoldable pub shiftable_frequency : Frequency → Bool
shiftable_frequency daily = true
shiftable_frequency weekly = true
shiftable_frequency monthly = true
shiftable_frequency yearly = true
shiftable_frequency hourly = false
shiftable_frequency minutely = false
shiftable_frequency secondly = false

abbrev plain_weekdays : List ℤ → Bool
plain_weekdays (n ∷ []) = leb_ℤ n (pos 0) && leb_ℤ (pos 0) n
plain_weekdays ns = true

-- the early returns on the parsed options
unfoldable pub is_single_interval : ROption → Bool
is_single_interval opt =
    shiftable_frequency opt.freq
    && not (ltb_ℤ opt.interval (pos 0))
    && (leb_ℤ opt.count (pos 0) && leb_ℤ (pos 0) opt.count)
    && is_zero opt.until
    && null opt.bysetpos
    && null opt.byyearday
    && null opt.byweekno
    && null opt.byhour
    && null opt.byminute
    && null opt.bysecond
    && null opt.byeaster
    && not (ltb 1 (length opt.byweekday))
    && not (ltb 1 (length opt.bymonthday))
    && not (ltb 1 (length opt.bymonth))
    && plain_weekdays opt.byweekday

unfoldable pub replacements : ROption → Time → Outcome Replacements
replacements opt anchor = do
  by_day ←
      (if length opt.byweekday == 1
        then (do token ← rrule_weekday_token (weekday anchor); ok ((codes "BYDAY", token) ∷ []))
        else ok [])
  ok (
      by_day
      ++ ((if length opt.bymonthday == 1
            then (codes "BYMONTHDAY", itoa (day_of_month anchor)) ∷ []
            else [])
          ++ (if length opt.bymonth == 1
              then (codes "BYMONTH", itoa (month_of anchor)) ∷ []
              else [])))

module _ (lib : Libraries) where
  open lib use {parse_rrule, parse_cron}

  unfoldable pub shift_rrule_from_completion : Text → Time → Outcome Text
  shift_rrule_from_completion s anchor =
      let raw = trim_space s in
      if contains raw (10 ∷ []) || contains (to_upper raw) (codes "DTSTART")
      then err not_shiftable
      else (do
        opt ← or_err not_shiftable (from_option (parse_rrule raw))
        require (is_single_interval opt) not_shiftable
        repl ← replacements opt anchor
        if null repl then ok (trim_prefix raw (codes "RRULE:")) else replace_rrule_parts raw repl)

  unfoldable pub shift_cron_series : Task → Time → Time → Outcome CompletionShift
  shift_cron_series parent anchor completed_at = do
    expr ← shift_cron_from_completion (text_or_empty parent.cron_expression) anchor
    parsed ← or_err not_shiftable (from_option (parse_cron expr))
    next ← or_err not_shiftable (
        next_recurrence_after lib
          (record parent { start_date = anchor; cron_expression = some expr }) completed_at)
    ok (record { anchor = anchor; next_start = next; cron = some expr; rrule = none })

  unfoldable pub shift_rrule_series : Task → Time → Time → Outcome CompletionShift
  shift_rrule_series parent anchor completed_at = do
    expr ← shift_rrule_from_completion (text_or_empty parent.rrule) anchor
    or_err not_shiftable (validate_rrule_string lib expr anchor)
    next ← or_err not_shiftable (
        next_recurrence_after lib (record parent { start_date = anchor; rrule = some expr })
          completed_at)
    ok (record { anchor = anchor; next_start = next; cron = none; rrule = some expr })

  unfoldable pub shift_recurrence_from_completion : Task → Time → Time → Outcome CompletionShift
  shift_recurrence_from_completion parent clock completed_at =
      if not (has_recurrence_rule parent)
      then err not_shiftable
      else if recurrence_field_set parent.cron_expression && recurrence_field_set parent.rrule
      then err not_shiftable
      else if recurrence_field_set parent.cron_expression
      then shift_cron_series parent (completion_anchor completed_at clock) completed_at
      else shift_rrule_series parent (completion_anchor completed_at clock) completed_at
