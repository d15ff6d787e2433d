-- ===== src/Calendar/Cron/Bounds.antt =====
-- The numbers that CronExpressionToRRule reads (internal/service/calendar_sync_helpers.go).
use goreminder.Prelude.{
  ℕ, zero, suc, ◌+◌, ◌≤◌, ◌≡◌, refl, Bool, true, false, ◌-◌, Option, none, some, List, [], ◌∷◌,
  ◌++◌, All, All-append, arith, get_elem?, is_some, any, all, leb, null, ltb, ◌||◌, if◌then◌else◌,
  ◌==◌,
}
use mathlib.Core.Path.{subst}
use goreminder.Prelude.Int.{ℤ, pos, negsuc}
use goreminder.Text.{Text, trim_space, to_lower, split, atoi, contains, codes, text_eq}
use goreminder.Calendar.Cron.{
  from_to, numbers, bounded, one_number, range_of, range_bounds, expand_piece, append_found,
  expand_pieces, expand_cron_int_list, no_list, cron_dow_token_to_number, lookup_token, or_number,
  day_tokens, dow_bounds, dow_piece, dow_pieces, day_names, add_name, cron_dow_by_day,
}

-- Within both bounds.
abbrev pub Within : ℕ → ℕ → ℕ → Type 0
Within lo hi n = (lo ≤ n) × (n ≤ hi)

abbrev AllWithin : ℕ → ℕ → Option (List ℕ) → Type 0
AllWithin lo hi none = Unit
AllWithin lo hi (some ns) = All (Within lo hi) ns

abbrev OneWithin : ℕ → ℕ → Option ℕ → Type 0
OneWithin lo hi none = Unit
OneWithin lo hi (some n) = Within lo hi n

if_else-One :
    (lo hi n : ℕ) (c : Bool)
    → (c ≡ false → Within lo hi n)
    → OneWithin lo hi (if c then none else some n)
if_else-One lo hi n true h = tt
if_else-One lo hi n false h = h refl

if_else-All :
    (lo hi : ℕ) (ns : List ℕ) (c : Bool)
    → (c ≡ false → All (Within lo hi) ns)
    → AllWithin lo hi (if c then none else some ns)
if_else-All lo hi ns true h = tt
if_else-All lo hi ns false h = h refl

from_to-Within :
    (lo hi count low : ℕ) → lo ≤ low → low + count ≤ suc hi → All (Within lo hi) (from_to count low)
unfolding from_to
from_to-Within lo hi zero low h k = tt
from_to-Within lo hi (suc count) low h k =
    (ground arith, from_to-Within lo hi count (suc low) (omega arith) (omega arith))

bounded-Within : (lo hi : ℕ) (o : Option ℤ) → OneWithin lo hi (bounded lo hi o)
bounded-Within lo hi none = tt
bounded-Within lo hi (some (negsuc n)) = tt
bounded-Within lo hi (some (pos n)) = if_else-One lo hi n (ltb n lo || ltb hi n) (λ e. ground arith)

one_number-Within : (lo hi : ℕ) (o : Option ℕ) → OneWithin lo hi o → AllWithin lo hi (one_number o)
one_number-Within lo hi none h = tt
one_number-Within lo hi (some n) h = (h, tt)

range_of-Within :
    (lo hi : ℕ) (a b : Option ℕ)
    → OneWithin lo hi a
    → OneWithin lo hi b
    → AllWithin lo hi (range_of a b)
range_of-Within lo hi none b h k = tt
range_of-Within lo hi (some a) none h k = tt
range_of-Within lo hi (some a) (some b) h k =
    if_else-All lo hi (numbers a b) (ltb b a)
      (λ e. from_to-Within lo hi (suc b - a) a h.0 (ground arith))

range_bounds-Within : (lo hi : ℕ) (pieces : List Text) → AllWithin lo hi (range_bounds lo hi pieces)
range_bounds-Within lo hi (a ∷ b ∷ []) =
    range_of-Within lo hi _ _ (bounded-Within lo hi (atoi (trim_space a)))
      (bounded-Within lo hi (atoi (trim_space b)))
range_bounds-Within lo hi [] = tt
range_bounds-Within lo hi (a ∷ []) = tt
range_bounds-Within lo hi (a ∷ b ∷ c ∷ rest) = tt

if_then-All :
    (lo hi : ℕ) (c : Bool) (a b : Option (List ℕ))
    → AllWithin lo hi a
    → AllWithin lo hi b
    → AllWithin lo hi (if c then a else b)
if_then-All lo hi true a b h k = h
if_then-All lo hi false a b h k = k

expand_piece-Within : (piece : Text) (lo hi : ℕ) → AllWithin lo hi (expand_piece piece lo hi)
unfolding expand_piece
expand_piece-Within piece lo hi = if_then-All lo hi (null piece) _ _ tt (
    if_then-All lo hi (contains piece (codes "-")) _ _ (range_bounds-Within lo hi _)
      (one_number-Within lo hi _ (bounded-Within lo hi (atoi piece))))

append_found-Within :
    (lo hi : ℕ) (a b : Option (List ℕ))
    → AllWithin lo hi a
    → AllWithin lo hi b
    → AllWithin lo hi (append_found a b)
append_found-Within lo hi none b h k = tt
append_found-Within lo hi (some ns) none h k = tt
append_found-Within lo hi (some ns) (some more) h k = All-append (Within lo hi) ns more h k

expand_pieces-Within :
    (pieces : List Text) (lo hi : ℕ) → AllWithin lo hi (expand_pieces pieces lo hi)
unfolding expand_pieces
expand_pieces-Within [] lo hi = tt
expand_pieces-Within (piece ∷ pieces) lo hi =
    append_found-Within lo hi _ _ (expand_piece-Within (trim_space piece) lo hi)
      (expand_pieces-Within pieces lo hi)

all_within :
    (lo hi : ℕ) (o : Option (List ℕ))
    → AllWithin lo hi o
    → (ns : List ℕ) → o ≡ some ns
    → All (Within lo hi) ns
all_within lo hi none h ns e = cc
all_within lo hi (some ms) h ns e = subst (AllWithin lo hi) e h

-- If a field of a cron expression is read, all its numbers - single ones, and those of lists and
-- ranges - lie within the bounds of the field.
pub expand_cron_int_list-Within :
    (field : Text) (lo hi : ℕ) (ns : List ℕ)
    → expand_cron_int_list field lo hi ≡ some ns
    → All (Within lo hi) ns
unfolding expand_cron_int_list
expand_cron_int_list-Within field lo hi ns e =
    all_within lo hi _
      (if_then-All lo hi (no_list field) _ _ tt (expand_pieces-Within (split b',' field) lo hi)) ns
      e

lookup-Within :
    (tok : Text) (table : List (Text × ℕ))
    → all (λ row. leb row.1 7) table ≡ true
    → OneWithin 0 7 (lookup_token tok table)
lookup-Within tok [] h = tt
lookup-Within tok ((name, n) ∷ rest) h =
    elim (text_eq tok name) as (λ b. OneWithin 0 7 (if b then some n else lookup_token tok rest)) [
      | true ↦ ground arith
      | false ↦ lookup-Within tok rest (ground arith)
    ]

or_number-Within : (tok : Text) (o : Option ℕ) → OneWithin 0 7 o → OneWithin 0 7 (or_number tok o)
or_number-Within tok none h = bounded-Within 0 7 (atoi tok)
or_number-Within tok (some n) h = h

token_number-Within : (t : Text) → OneWithin 0 7 (cron_dow_token_to_number t)
unfolding cron_dow_token_to_number
token_number-Within t =
    or_number-Within (to_lower (trim_space t)) _
      (lookup-Within (to_lower (trim_space t)) day_tokens refl)

dow_bounds-Within : (pieces : List Text) → AllWithin 0 7 (dow_bounds pieces)
dow_bounds-Within (a ∷ b ∷ []) =
    range_of-Within 0 7 _ _ (token_number-Within a) (token_number-Within b)
dow_bounds-Within [] = tt
dow_bounds-Within (a ∷ []) = tt
dow_bounds-Within (a ∷ b ∷ c ∷ rest) = tt

dow_piece-Within : (piece : Text) → AllWithin 0 7 (dow_piece piece)
unfolding dow_piece
dow_piece-Within piece = if_then-All 0 7 (null piece) _ _ tt (
    if_then-All 0 7 (contains piece (codes "-")) _ _ (dow_bounds-Within _)
      (one_number-Within 0 7 _ (token_number-Within piece)))

dow_pieces-Within : (pieces : List Text) → AllWithin 0 7 (dow_pieces pieces)
unfolding dow_pieces
dow_pieces-Within [] = tt
dow_pieces-Within (piece ∷ pieces) =
    append_found-Within 0 7 _ _ (dow_piece-Within (trim_space piece)) (dow_pieces-Within pieces)

named :
    (n : ℕ)
    → Within 0 7 n
    → (name : Text) × (get_elem? cron_dow_by_day (if n == 7 then 0 else n) ≡ some name)
named zero h = (_, refl)
named (suc zero) h = (_, refl)
named (suc (suc zero)) h = (_, refl)
named (suc (suc (suc zero))) h = (_, refl)
named (suc (suc (suc (suc zero)))) h = (_, refl)
named (suc (suc (suc (suc (suc zero))))) h = (_, refl)
named (suc (suc (suc (suc (suc (suc zero)))))) h = (_, refl)
named (suc (suc (suc (suc (suc (suc (suc zero))))))) h = (_, refl)
named (suc (suc (suc (suc (suc (suc (suc (suc n)))))))) h = absurd (omega arith)

add_name-named :
    (o : Option Text) (name : Text) (seen : List Text) (rest : List Text → Option (List Text))
    → o ≡ some name
    → ((seen' : List Text) → is_some (rest seen') ≡ true)
    → is_some (add_name o seen rest) ≡ true
add_name-named none name seen rest e h = cc
add_name-named (some s) name seen rest e h =
    elim (any (text_eq s) seen)
      as (λ b. is_some (if b then rest seen else rest (seen ++ s ∷ [])) ≡ true) [
        | true ↦ h seen
        | false ↦ h (seen ++ s ∷ [])
      ]

day_names-named :
    (ns : List ℕ) (seen : List Text) → All (Within 0 7) ns → is_some (day_names ns seen) ≡ true
unfolding day_names
day_names-named [] seen h = refl
day_names-named (n ∷ ns) seen h =
    let (name, e) = named n h.0 in
    add_name-named _ name seen _ e (λ seen'. day_names-named ns seen' h.1)

-- Once the day-of-week field is read, every number in it has a name: the test of the source for
-- a number that names no day never fires.
day_names-total :
    (field : Text) (ns : List ℕ)
    → dow_pieces (split b',' field) ≡ some ns
    → is_some (day_names ns []) ≡ true
day_names-total field ns e =
    day_names-named ns [] (all_within 0 7 _ (dow_pieces-Within (split b',' field)) ns e)
