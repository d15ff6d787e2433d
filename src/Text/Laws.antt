-- ===== src/Text/Laws.antt =====
-- Laws of the text functions that the other modules use.
use goreminder.Prelude.{◌≡◌, refl, true, [], ◌∷◌, arith}
use goreminder.Text.{Text, text_eq}

pub text_eq_refl : (s : Text) → text_eq s s ≡ true
text_eq_refl [] = refl
text_eq_refl (c ∷ s) = ground (arith, text_eq_refl s)

pub text_eq→eq : (s t : Text) → text_eq s t ≡ true → s ≡ t
text_eq→eq [] [] h = refl
text_eq→eq [] (b ∷ t) h = cc
text_eq→eq (a ∷ s) [] h = cc
text_eq→eq (a ∷ s) (b ∷ t) h = ground (arith, text_eq→eq s t)
