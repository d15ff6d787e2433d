-- ===== src/Accounts/Listing/Title.antt =====
-- escapeLikePattern of internal/repository/task_repository.go, and the ILIKE of PostgreSQL.
pub mod Search
use goreminder.Prelude.{ℕ, Bool, true, false, ◌||◌, List, [], ◌∷◌, ◌++◌, ◌==◌, null, if◌then◌else◌}
use goreminder.Text.{Text, lower}

-- strings.ReplaceAll(s, c, `\` + c) for one character
unfoldable pub escape_char : ℕ → Text → Text
escape_char c [] = []
escape_char c (x ∷ s) = let rest = escape_char c s in if x == c then 92 ∷ x ∷ rest else x ∷ rest

unfoldable pub escape_like_pattern : Text → Text
unfolding escape_char
escape_like_pattern s = escape_char b'_' (escape_char b'%' (escape_char 92 s))

-- a character of a pattern: itself, `_`, or `%`
pub data Like : Type 0 where
  literal : ℕ → Like
  any_one many : Like

abbrev pub wildcard : ℕ → Like
wildcard p = if p == b'%' then many else if p == b'_' then any_one else literal p

unfoldable pub read_pattern : Text → List Like
read_pattern [] = []
read_pattern (p ∷ []) = wildcard p ∷ []
read_pattern (p ∷ c ∷ ps) = elim (p == 92) [
  | true ↦ literal c ∷ read_pattern ps
  | false ↦ wildcard p ∷ read_pattern (c ∷ ps)
]

-- whether a suffix passes
abbrev pub any_suffix : (Text → Bool) → Text → Bool
any_suffix p [] = p []
any_suffix p (c ∷ s) = p (c ∷ s) || any_suffix p s

abbrev pub on_first : (ℕ → Bool) → (Text → Bool) → Text → Bool
on_first p rest [] = false
on_first p rest (c ∷ s) = if p c then rest s else false

-- letters are compared in lower case
unfoldable pub like : List Like → Text → Bool
like [] s = null s
like (literal p ∷ ps) s = on_first (λ c. lower c == lower p) (like ps) s
like (any_one ∷ ps) s = on_first (λ c. true) (like ps) s
like (many ∷ ps) s = any_suffix (like ps) s

unfoldable pub ilike : Text → Text → Bool
ilike pattern s = like (read_pattern pattern) s
