-- ===== src/Accounts/Listing/Title/Search.antt =====
-- A search by title finds the titles that contain the text, whatever characters it has.
use goreminder.Prelude.{
  ℕ, ◌≡◌, refl, ap, ◌∙◌, Bool, true, false, ◌&&◌, ◌||◌, [], ◌∷◌, ◌++◌, map, ◌==◌, arith,
  if◌then◌else◌, Bool-cases, inl, inr, null, some, none,
}
use goreminder.Text.{Text, to_lower, contains, has_prefix}
use goreminder.Accounts.Listing.Title.{
  escape_char, escape_like_pattern, literal, many, wildcard, read_pattern, any_suffix, like, ilike,
}
use goreminder.Models.{Task}
use goreminder.Accounts.World.{AccountEnv}
use goreminder.Accounts.Listing.{title_pattern, TaskFilter, matches_columns, is_listed}

abbrev is_special : ℕ → Bool
is_special c = (c == 92) || (c == b'%') || (c == b'_')

escape_like_pattern-cons :
    (c : ℕ) (s : Text)
    → escape_like_pattern (c ∷ s)
      ≡ (if is_special c then 92 ∷ c ∷ escape_like_pattern s else c ∷ escape_like_pattern s)
unfolding escape_like_pattern escape_char
escape_like_pattern-cons c s = elim (Bool-cases (c == 92)) [
  | inl a ↦ ground arith
  | inr a ↦ elim (Bool-cases (c == b'%')) [ inl b ↦ ground arith | inr b ↦ ground arith ]
]

read_pattern-plain :
    (c : ℕ) (t : Text) (x : ℕ)
    → (c == 92) ≡ false
    → read_pattern (c ∷ (t ++ x ∷ [])) ≡ wildcard c ∷ read_pattern (t ++ x ∷ [])
unfolding read_pattern
read_pattern-plain c [] x h = ground arith
read_pattern-plain c (y ∷ t) x h = ground arith

read_step :
    (c : ℕ) (t : Text)
    → read_pattern ((if is_special c then 92 ∷ c ∷ t else c ∷ t) ++ b'%' ∷ [])
      ≡ literal c ∷ read_pattern (t ++ b'%' ∷ [])
unfolding read_pattern
read_step c t = elim (Bool-cases (is_special c)) [
  | inl a ↦ rw a
  | inr a ↦ ground (arith, read_pattern-plain c t b'%')
]

-- what a pattern of the search reads as
read_escaped :
    (s : Text) → read_pattern (escape_like_pattern s ++ b'%' ∷ []) ≡ map literal s ++ many ∷ []
read_escaped [] = unfold escape_like_pattern escape_char read_pattern in refl
read_escaped (c ∷ s) =
    rw (escape_like_pattern-cons c s)
      (read_step c (escape_like_pattern s) ∙ ap (λ ps. literal c ∷ ps) (read_escaped s))

read_many :
    (t title : Text)
    → like (read_pattern (b'%' ∷ t)) title ≡ any_suffix (like (read_pattern t)) title
unfolding read_pattern like
read_many [] title = refl
read_many (x ∷ t) title = refl

any_suffix-many : (s : Text) → any_suffix (like []) s ≡ true
unfolding like
any_suffix-many [] = refl
any_suffix-many (c ∷ s) = rw (any_suffix-many s)

like_literals :
    (p s : Text) → like (map literal p ++ many ∷ []) s ≡ has_prefix (to_lower s) (to_lower p)
unfolding to_lower like has_prefix
like_literals [] s = any_suffix-many s
like_literals (c ∷ p) [] = refl
like_literals (c ∷ p) (x ∷ s) = ground (arith, like_literals p s)

any_suffix-contains :
    (p s : Text)
    → any_suffix (like (map literal p ++ many ∷ [])) s ≡ contains (to_lower s) (to_lower p)
unfolding contains to_lower
any_suffix-contains p [] = like_literals p []
any_suffix-contains p (c ∷ s) = λ i. like_literals p (c ∷ s) i || any_suffix-contains p s i

-- ILIKE with the pattern of a search by title: the title contains the text, letters in any case.
pub title_pattern-contains :
    (s title : Text) → ilike (title_pattern s) title ≡ contains (to_lower title) (to_lower s)
unfolding ilike title_pattern
title_pattern-contains s title =
    read_many (escape_like_pattern s ++ b'%' ∷ []) title
    ∙ (ap (λ ps. any_suffix (like ps) title) (read_escaped s) ∙ any_suffix-contains s title)

-- A list of tasks with a title filter has exactly the tasks of the list without it whose title
-- contains the text, letters in any case; an empty text is no filter.
pub is_listed-title :
    (e : AccountEnv) (f : TaskFilter) (s : Text) (t : Task)
    → is_listed e (record f { title = some s }) t
      ≡ is_listed e (record f { title = none }) t
        && (null s || contains (to_lower t.title) (to_lower s))
unfolding is_listed matches_columns
is_listed-title e f s t = elim (Bool-cases (null s)) [
  | inl a ↦ ground arith
  | inr a ↦ ground (arith, title_pattern-contains s t.title)
]
