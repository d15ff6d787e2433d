-- ===== src/Calendar/Cron.antt =====
-- CronExpressionToRRule of internal/service/calendar_sync_helpers.go.
pub mod Bounds
use goreminder.Prelude.{
  ℕ, zero, suc, ◌+◌, ◌-◌, Bool, true, false, not, ◌&&◌, ◌||◌, Option, none, some, List, [], ◌∷◌,
  ◌++◌, map, any, null, get_elem?, ltb, leb, ◌==◌, if◌then◌else◌,
}
use goreminder.Prelude.Int.{ℤ, pos, negsuc}
use goreminder.Text.{
  Text, codes, text_eq, trim_space, to_lower, has_prefix, contains, contains_any, split, fields,
  join, atoi, itoa,
}
use goreminder.Recurrence.Rules.{Libraries}
use goreminder.Recurrence.Shift.{is_star}

-- for n := low; n < low + count; n++
unfoldable pub from_to : ℕ → ℕ → List ℕ
from_to zero low = []
from_to (suc count) low = low ∷ from_to count (suc low)

-- the numbers from `low` to `high`, none where `low` is above `high`
abbrev pub numbers : ℕ → ℕ → List ℕ
numbers low high = from_to (suc high - low) low

-- the value of a bound that is not below `lo` nor above `hi`; a negative number is below `lo`
abbrev pub bounded : ℕ → ℕ → Option ℤ → Option ℕ
bounded lo hi none = none
bounded lo hi (some (negsuc n)) = none
bounded lo hi (some (pos n)) = if ltb n lo || ltb hi n then none else some n

abbrev pub one_number : Option ℕ → Option (List ℕ)
one_number none = none
one_number (some n) = some (n ∷ [])

-- both bounds are read, in order and in the range
abbrev pub range_of : Option ℕ → Option ℕ → Option (List ℕ)
range_of none b = none
range_of (some a) none = none
range_of (some a) (some b) = if ltb b a then none else some (numbers a b)

abbrev pub range_bounds : ℕ → ℕ → List Text → Option (List ℕ)
range_bounds lo hi (a ∷ b ∷ []) =
    range_of (bounded lo hi (atoi (trim_space a))) (bounded lo hi (atoi (trim_space b)))
range_bounds lo hi pieces = none

-- one piece of the list
unfoldable pub expand_piece : Text → ℕ → ℕ → Option (List ℕ)
expand_piece piece lo hi =
    if null piece
    then none
    else if contains piece (codes "-")
    then range_bounds lo hi (split b'-' piece)
    else one_number (bounded lo hi (atoi piece))

abbrev pub append_found : Option (List ℕ) → Option (List ℕ) → Option (List ℕ)
append_found none rest = none
append_found (some ns) none = none
append_found (some ns) (some more) = some (ns ++ more)

unfoldable pub expand_pieces : List Text → ℕ → ℕ → Option (List ℕ)
expand_pieces [] lo hi = some []
expand_pieces (piece ∷ pieces) lo hi =
    append_found (expand_piece (trim_space piece) lo hi) (expand_pieces pieces lo hi)

abbrev pub no_list : Text → Bool
no_list field = is_star field || has_prefix field (codes "*/")

unfoldable pub expand_cron_int_list : Text → ℕ → ℕ → Option (List ℕ)
expand_cron_int_list field lo hi =
    if no_list field then none else expand_pieces (split b',' field) lo hi

abbrev csv : Option (List ℕ) → Option Text
csv none = none
csv (some []) = none
csv (some (n ∷ ns)) = some (join (codes ",") (map itoa (n ∷ ns)))

unfoldable pub cron_field_to_csv : Text → ℕ → ℕ → Option Text
cron_field_to_csv field lo hi = csv (expand_cron_int_list field lo hi)

-- the first name of the table that is the token
abbrev pub lookup_token : Text → List (Text × ℕ) → Option ℕ
lookup_token tok [] = none
lookup_token tok ((name, n) ∷ rest) = if text_eq tok name then some n else lookup_token tok rest

abbrev pub day_tokens : List (Text × ℕ)
day_tokens =
    (codes "0", 0)
    ∷ (codes "7", 0)
    ∷ (codes "sun", 0)
    ∷ (codes "sunday", 0)
    ∷ (codes "1", 1)
    ∷ (codes "mon", 1)
    ∷ (codes "monday", 1)
    ∷ (codes "2", 2)
    ∷ (codes "tue", 2)
    ∷ (codes "tuesday", 2)
    ∷ (codes "3", 3)
    ∷ (codes "wed", 3)
    ∷ (codes "wednesday", 3)
    ∷ (codes "4", 4)
    ∷ (codes "thu", 4)
    ∷ (codes "thursday", 4)
    ∷ (codes "5", 5)
    ∷ (codes "fri", 5)
    ∷ (codes "friday", 5)
    ∷ (codes "6", 6)
    ∷ (codes "sat", 6)
    ∷ (codes "saturday", 6)
    ∷ []

abbrev pub or_number : Text → Option ℕ → Option ℕ
or_number tok none = bounded 0 7 (atoi tok)
or_number tok (some n) = some n

unfoldable pub cron_dow_token_to_number : Text → Option ℕ
cron_dow_token_to_number tok =
    let t = to_lower (trim_space tok) in or_number t (lookup_token t day_tokens)

abbrev pub dow_bounds : List Text → Option (List ℕ)
dow_bounds (a ∷ b ∷ []) = range_of (cron_dow_token_to_number a) (cron_dow_token_to_number b)
dow_bounds pieces = none

unfoldable pub dow_piece : Text → Option (List ℕ)
dow_piece piece =
    if null piece
    then none
    else if contains piece (codes "-")
    then dow_bounds (split b'-' piece)
    else one_number (cron_dow_token_to_number piece)

unfoldable pub dow_pieces : List Text → Option (List ℕ)
dow_pieces [] = some []
dow_pieces (piece ∷ pieces) = append_found (dow_piece (trim_space piece)) (dow_pieces pieces)

abbrev pub cron_dow_by_day : List Text
cron_dow_by_day =
    codes "SU" ∷ codes "MO" ∷ codes "TU" ∷ codes "WE" ∷ codes "TH" ∷ codes "FR" ∷ codes "SA" ∷ []

-- adds the name of a day unless it was seen; `none` for a number that names no day
abbrev pub add_name :
    Option Text → List Text → (List Text → Option (List Text)) → Option (List Text)
add_name none seen rest = none
add_name (some name) seen rest =
    if any (text_eq name) seen then rest seen else rest (seen ++ name ∷ [])

-- the loop over the numbers, with the names so far
unfoldable pub day_names : List ℕ → List Text → Option (List Text)
day_names [] seen = some seen
day_names (n ∷ ns) seen =
    add_name (get_elem? cron_dow_by_day (if n == 7 then 0 else n)) seen (day_names ns)

abbrev joined_days : Option (List Text) → Option Text
joined_days none = none
joined_days (some names) = some (join (codes ",") names)

abbrev names_of : Option (List ℕ) → Option Text
names_of none = none
names_of (some []) = none
names_of (some (n ∷ ns)) = joined_days (day_names (n ∷ ns) [])

unfoldable pub cron_dow_to_by_day : Text → Option Text
cron_dow_to_by_day field = if no_list field then none else names_of (dow_pieces (split b',' field))

abbrev prefixed : Text → Option Text → Option Text
prefixed p none = none
prefixed p (some s) = some (p ++ s)

abbrev yearly_rule : Option Text → Option Text → Option Text
yearly_rule none m = none
yearly_rule (some d) none = none
yearly_rule (some d) (some m) =
    some (codes "FREQ=YEARLY;BYMONTH=" ++ m ++ codes ";BYMONTHDAY=" ++ d)

-- the `switch` over the last three of the five fields
unfoldable pub rule_of_fields : Text → Text → Text → Option Text
rule_of_fields dom month dow =
    if is_star dom && is_star month && is_star dow
    then some (codes "FREQ=DAILY")
    else if is_star dom && is_star month && not (is_star dow)
    then prefixed (codes "FREQ=WEEKLY;BYDAY=") (cron_dow_to_by_day dow)
    else if not (is_star dom) && is_star month && is_star dow
    then prefixed (codes "FREQ=MONTHLY;BYMONTHDAY=") (cron_field_to_csv dom 1 31)
    else if not (is_star dom) && not (is_star month) && is_star dow
    then yearly_rule (cron_field_to_csv dom 1 31) (cron_field_to_csv month 1 12)
    else none

unfoldable pub rule_of_parts : List Text → Option Text
rule_of_parts (minute ∷ hour ∷ dom ∷ month ∷ dow ∷ []) =
    if has_prefix minute (codes "*/") || has_prefix hour (codes "*/")
    then none
    else if contains_any minute (codes "-,") || contains_any hour (codes "-,")
    then none
    else rule_of_fields dom month dow
rule_of_parts parts = none

unfoldable pub cron_expression_to_rrule : Libraries → Text → Option Text
cron_expression_to_rrule lib expr =
    let s = trim_space expr in
    if null s then none else if lib.is_standard_cron s then rule_of_parts (fields s) else none
