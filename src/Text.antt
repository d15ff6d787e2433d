-- ===== src/Text.antt =====
-- Go strings as lists of code points, and the functions of the packages strings and strconv
-- that the program calls. Case mapping and the set of spaces are those of ASCII.
pub mod Laws
pub mod Trim
use Prim.Native.Char.{code}
use Prim.Native.String.{String}
use goreminder.Prelude.{
  ℕ, zero, suc, ◌+◌, ◌-◌, ◌*◌, ◌/◌, ◌%◌, Bool, true, false, not, ◌&&◌, ◌||◌, Option, none, some,
  List, [], ◌∷◌, ◌++◌, map, any, null, ltb, leb, ◌==◌, if◌then◌else◌,
}
use goreminder.Prelude.Int.{ℤ, pos, negsuc, neg_nat}

abbrev pub Text : Type 0
Text = List ℕ

abbrev pub codes : String → Text
codes String.[] = []
codes (String.◌∷◌ c s) = code c ∷ codes s

abbrev pub text_eq : Text → Text → Bool
text_eq [] [] = true
text_eq [] (b ∷ t) = false
text_eq (a ∷ s) [] = false
text_eq (a ∷ s) (b ∷ t) = (a == b) && text_eq s t

unfoldable pub is_space : ℕ → Bool
is_space c = (leb 9 c && leb c 13) || (c == 32)

unfoldable pub trim_left : Text → Text
unfolding is_space
trim_left [] = []
trim_left (c ∷ s) = if is_space c then trim_left s else c ∷ s

-- drops the trailing spaces
unfoldable pub trim_right : Text → Text
unfolding is_space
trim_right [] = []
trim_right (c ∷ s) = let rest = trim_right s in if is_space c && null rest then [] else c ∷ rest

-- strings.TrimSpace
unfoldable pub trim_space : Text → Text
unfolding trim_left trim_right
trim_space s = trim_right (trim_left s)

-- strings.ToUpper and strings.ToLower
unfoldable pub upper : ℕ → ℕ
upper c = if leb 97 c && leb c 122 then c - 32 else c

unfoldable pub lower : ℕ → ℕ
lower c = if leb 65 c && leb c 90 then c + 32 else c

unfoldable pub to_upper : Text → Text
unfolding upper
to_upper s = map upper s

unfoldable pub to_lower : Text → Text
unfolding lower
to_lower s = map lower s

-- strings.HasPrefix
unfoldable pub has_prefix : Text → Text → Bool
has_prefix s [] = true
has_prefix [] (p ∷ ps) = false
has_prefix (c ∷ s) (p ∷ ps) = (c == p) && has_prefix s ps

-- s[n:], for n at most the length
unfoldable pub drop : ℕ → Text → Text
drop zero s = s
drop (suc n) [] = []
drop (suc n) (c ∷ s) = drop n s

abbrev text_length : Text → ℕ
text_length [] = 0
text_length (c ∷ s) = suc (text_length s)

-- strings.TrimPrefix
unfoldable pub trim_prefix : Text → Text → Text
unfolding has_prefix drop
trim_prefix s p = if has_prefix s p then drop (text_length p) s else s

-- strings.Contains
unfoldable pub contains : Text → Text → Bool
unfolding has_prefix
contains [] p = has_prefix [] p
contains (c ∷ s) p = has_prefix (c ∷ s) p || contains s p

-- strings.ContainsAny
unfoldable pub contains_any : Text → Text → Bool
contains_any s chars = any (λ c. any (λ x. x == c) chars) s

-- puts `c` in front of the first piece
abbrev pub onto_first : ℕ → List Text → List Text
onto_first c [] = (c ∷ []) ∷ []
onto_first c (piece ∷ rest) = (c ∷ piece) ∷ rest

-- strings.Split by one character
unfoldable pub split : ℕ → Text → List Text
split sep [] = [] ∷ []
split sep (c ∷ s) = let rest = split sep s in if c == sep then [] ∷ rest else onto_first c rest

-- the pieces of `s` between the places where `sep` starts; `skip` characters belong to the last one
unfoldable pub split_from : Text → ℕ → Text → List Text
unfolding has_prefix
split_from sep skip [] = [] ∷ []
split_from sep (suc skip) (c ∷ s) = split_from sep skip s
split_from sep zero (c ∷ s) = elim (has_prefix (c ∷ s) sep) [
  | true ↦ [] ∷ split_from sep (text_length sep - 1) s
  | false ↦ onto_first c (split_from sep zero s)
]

-- strings.Split by a text that is not empty
unfoldable pub split_by : Text → Text → List Text
unfolding split_from
split_by sep s = split_from sep zero s

abbrev keep_nonempty : List Text → List Text
keep_nonempty [] = []
keep_nonempty ([] ∷ rest) = keep_nonempty rest
keep_nonempty ((c ∷ s) ∷ rest) = (c ∷ s) ∷ keep_nonempty rest

-- the pieces between spaces, empty ones included
unfoldable pub split_spaces : Text → List Text
unfolding is_space
split_spaces [] = [] ∷ []
split_spaces (c ∷ s) =
    let rest = split_spaces s in if is_space c then [] ∷ rest else onto_first c rest

-- strings.Fields
unfoldable pub fields : Text → List Text
unfolding split_spaces
fields s = keep_nonempty (split_spaces s)

-- strings.Join
unfoldable pub join : Text → List Text → Text
join sep [] = []
join sep (piece ∷ []) = piece
join sep (piece ∷ next ∷ rest) = piece ++ (sep ++ join sep (next ∷ rest))

-- strings.Cut at the first `sep`: the text before it, and whether it was found
unfoldable pub cut : ℕ → Text → Text × Bool
cut sep [] = ([], false)
cut sep (c ∷ s) =
    let (before, found) = cut sep s in if c == sep then ([], true) else (c ∷ before, found)

unfoldable pub is_digit : ℕ → Bool
is_digit c = leb 48 c && leb c 57

-- the digits after an optional sign, with the value read so far
unfoldable pub digits_value : ℕ → Text → Option ℕ
unfolding is_digit
digits_value n [] = some n
digits_value n (c ∷ s) =
    let rest = digits_value (n * 10 + (c - 48)) s in if is_digit c then rest else none

unfoldable pub unsigned_value : Text → Option ℕ
unfolding digits_value
unsigned_value [] = none
unsigned_value (c ∷ s) = digits_value 0 (c ∷ s)

abbrev signed : (ℕ → ℤ) → ℕ → Option ℕ → Option ℤ
signed f limit none = none
signed f limit (some n) = if leb n limit then some (f n) else none

-- strconv.Atoi and strconv.ParseInt(_, 10, 64): an error out of the range of int64
unfoldable pub atoi : Text → Option ℤ
unfolding unsigned_value
atoi [] = none
atoi (c ∷ s) =
    if c == b'-'
    then signed neg_nat 9223372036854775808 (unsigned_value s)
    else if c == b'+'
    then signed pos 9223372036854775807 (unsigned_value s)
    else signed pos 9223372036854775807 (unsigned_value (c ∷ s))

-- strconv.Itoa of a number that is not negative, with fuel for its digits
unfoldable pub itoa_fuel : ℕ → ℕ → Text
itoa_fuel zero n = []
itoa_fuel (suc fuel) n =
    let rest = itoa_fuel fuel (n / 10) in
    if ltb n 10 then (48 + n) ∷ [] else rest ++ (48 + n % 10) ∷ []

unfoldable pub itoa : ℕ → Text
unfolding itoa_fuel
itoa n = itoa_fuel (suc n) n

-- s[strings.LastIndex(s, c)+1:], the whole text where there is no `c`
unfoldable pub after_last : ℕ → Text → Text
after_last c [] = []
after_last c (x ∷ s) =
    let rest = after_last c s in if any (λ y. y == c) s then rest else if x == c then s else x ∷ s

unfoldable pub drop_char : ℕ → Text → Text
drop_char c [] = []
drop_char c (x ∷ s) = if x == c then drop_char c s else x ∷ s

unfoldable pub drop_last_char : ℕ → Text → Text
drop_last_char c [] = []
drop_last_char c (x ∷ s) =
    let rest = drop_last_char c s in if (x == c) && null rest then [] else x ∷ rest

-- strings.Trim(s, c) for one character
unfoldable pub trim_char : ℕ → Text → Text
unfolding drop_char drop_last_char
trim_char c s = drop_last_char c (drop_char c s)
