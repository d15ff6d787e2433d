-- ===== src/Text/Trim.antt =====
-- strings.TrimSpace twice (Text.antt).
use goreminder.Prelude.{◌≡◌, refl, Bool, true, false, [], ◌∷◌, arith, if◌then◌else◌}
use goreminder.Text.{Text, is_space, trim_left, trim_right, trim_space}

-- No space at its start.
abbrev pub StartsBare : Text → Type 0
StartsBare [] = Unit
StartsBare (c ∷ s) = is_space c ≡ false

trim_left-StartsBare : (s : Text) → StartsBare (trim_left s)
unfolding trim_left
trim_left-StartsBare [] = tt
trim_left-StartsBare (c ∷ s) = by_space (trim_left-StartsBare s) (is_space c) refl
  where
    by_space :
        StartsBare (trim_left s)
        → (b : Bool) → is_space c ≡ b
        → StartsBare (if b then trim_left s else c ∷ s)
    by_space h true e = h
    by_space h false e = e

trim_right-trim_right : (s : Text) → trim_right (trim_right s) ≡ trim_right s
unfolding trim_right
trim_right-trim_right [] = refl
trim_right-trim_right (c ∷ s) = ground (arith, trim_right-trim_right s)

trim_left-bare : (s : Text) → StartsBare s → trim_left (trim_right s) ≡ trim_right s
unfolding trim_right trim_left
trim_left-bare [] h = refl
trim_left-bare (c ∷ s) h = ground arith

pub trim_space-trim_space : (s : Text) → trim_space (trim_space s) ≡ trim_space s
unfolding trim_space
trim_space-trim_space s =
    cc (trim_left-bare (trim_left s) (trim_left-StartsBare s), trim_right-trim_right (trim_left s))
