-- ===== src/Accounts/Digests/Keys.antt =====
-- The table of digest settings as a list: its keys under an insert, an update and a deletion.
use goreminder.Prelude.{
  ℕ, ◌<◌, ◌≡◌, refl, sym, ap, ◌∙◌, ◌⊎◌, inl, inr, Bool, true, false, not, ◌&&◌, Option, none, some,
  is_some, List, [], ◌∷◌, ◌++◌, any, ◌==◌, arith, if◌then◌else◌, All, All-append, Bool-cases,
}
use mathlib.Core.Path.{subst}
use goreminder.Sync.Rows.{find, select, change}
use goreminder.Accounts.World.{DigestSettings}
use goreminder.Accounts.Rows.Digests.{same, is_for, clashes, update_digest_row}

-- two rows of different ids and of different users or messengers
abbrev pub Separate : DigestSettings → DigestSettings → Type 0
Separate x y = ((x.id == y.id) ≡ false) × (is_for x.user_id x.messenger_related_user_id y ≡ false)

abbrev pub Pairwise : List DigestSettings → Type 0
Pairwise [] = Unit
Pairwise (d ∷ l) = All (Separate d) l × Pairwise l

abbrev pub Below : ℕ → DigestSettings → Type 0
Below n d = d.id < n

same_sym : (a b : Option ℕ) → same a b ≡ same b a
same_sym none none = refl
same_sym none (some b) = refl
same_sym (some a) none = refl
same_sym (some a) (some b) = ground arith

is_for_sym :
    (x y : DigestSettings)
    → is_for x.user_id x.messenger_related_user_id y
      ≡ is_for y.user_id y.messenger_related_user_id x
is_for_sym x y = ground (arith, same_sym x.messenger_related_user_id y.messenger_related_user_id)

module _ (new : DigestSettings) where
  -- the new row stands apart from each row
  apart :
      (l : List DigestSettings)
      → All (Below new.id) l
      → find (is_for new.user_id new.messenger_related_user_id) l ≡ none
      → All (λ x. Separate x new) l
  unfolding find
  apart [] b h = tt
  apart (x ∷ l) b h = elim (Bool-cases (is_for new.user_id new.messenger_related_user_id x)) [
    | inl f ↦ absurd (ground arith)
    | inr f ↦ ((ground arith, is_for_sym x new ∙ f), apart l b.1 (ground arith))
  ]

  pub insert-Pairwise :
      (l : List DigestSettings)
      → Pairwise l
      → All (λ x. Separate x new) l
      → Pairwise (l ++ new ∷ [])
  insert-Pairwise [] p a = (tt, tt)
  insert-Pairwise (x ∷ l) p a =
      (All-append (Separate x) l (new ∷ []) p.0 (a.0, tt), insert-Pairwise l p.1 a.1)

  pub new-Pairwise :
      (l : List DigestSettings)
      → Pairwise l
      → All (Below new.id) l
      → find (is_for new.user_id new.messenger_related_user_id) l ≡ none
      → Pairwise (l ++ new ∷ [])
  new-Pairwise l p b h = insert-Pairwise l p (apart l b h)

module _ {A : Type 0} (P : A → Type 0) where
  pub find-All : (p : A → Bool) (l : List A) (a : A) → All P l → find p l ≡ some a → P a
  unfolding find
  find-All p [] a h q = absurd (ground arith)
  find-All p (x ∷ l) a h q = elim (Bool-cases (p x)) [
    | inl f ↦ subst P (found x a l p f q) h.0
    | inr f ↦ find-All p l a h.1 (rw f at q)
  ]
    where
      found : (x a : A) (l : List A) (p : A → Bool) → p x ≡ true → find p (x ∷ l) ≡ some a → x ≡ a
      found x a l p f q = ground arith

  pub select-All : (p : A → Bool) (l : List A) → All P l → All P (select p l)
  unfolding select
  select-All p [] h = tt
  select-All p (x ∷ l) h = elim (Bool-cases (p x)) [
    | inl f ↦ rw f (h.0, select-All p l h.1)
    | inr f ↦ rw f (select-All p l h.1)
  ]

  pub change-All :
      (p : A → Bool) (f : A → A) (l : List A)
      → ((x : A) → P x → P (f x))
      → All P l
      → All P (change p f l)
  unfolding change
  change-All p f [] k h = tt
  change-All p f (x ∷ l) k h = elim (Bool-cases (p x)) [
    | inl q ↦ rw q (k x h.0, change-All p f l k h.1)
    | inr q ↦ rw q (h.0, change-All p f l k h.1)
  ]

pub select-Pairwise :
    (p : DigestSettings → Bool) (l : List DigestSettings) → Pairwise l → Pairwise (select p l)
unfolding select
select-Pairwise p [] h = tt
select-Pairwise p (x ∷ l) h = elim (Bool-cases (p x)) [
  | inl f ↦ rw f (select-All (Separate x) p l h.0, select-Pairwise p l h.1)
  | inr f ↦ rw f (select-Pairwise p l h.1)
]

-- what an update keeps of the row that it was made from
abbrev pub From : DigestSettings → DigestSettings → Type 0
From old new =
    (new.id ≡ old.id)
    × (new.user_id ≡ old.user_id)
    × ((new.messenger_related_user_id ≡ old.messenger_related_user_id)
        ⊎ (is_some new.messenger_related_user_id ≡ true))

-- a row of another id that the constraint lets pass
abbrev Passes : DigestSettings → DigestSettings → Type 0
Passes new x = not (x.id == new.id) && clashes new.user_id new.messenger_related_user_id x ≡ false

module _ (new : DigestSettings) where
  passes :
      (l : List DigestSettings)
      → any (λ x. not (x.id == new.id) && clashes new.user_id new.messenger_related_user_id x) l
        ≡ false
      → All (Passes new) l
  passes [] h = tt
  passes (x ∷ l) h = (ground arith, passes l (ground arith))

  none_of_id :
      (x : DigestSettings) (l : List DigestSettings)
      → All (Separate x) l
      → x.id ≡ new.id
      → All (λ y. (y.id == new.id) ≡ true → From y new) l
  none_of_id x [] h q = tt
  none_of_id x (y ∷ l) h q = (λ r. absurd (ground arith), none_of_id x l h.1 q)

  -- the row that is found is the only one with its id
  of_id :
      (user : ℕ) (messenger : Option ℕ) (old : DigestSettings) (l : List DigestSettings)
      → Pairwise l
      → find (is_for user messenger) l ≡ some old
      → From old new
      → All (λ x. (x.id == new.id) ≡ true → From x new) l
  unfolding find
  of_id user messenger old [] p f h = tt
  of_id user messenger old (x ∷ l) p f h = elim (Bool-cases (is_for user messenger x)) [
    | inl q ↦
        let same_row : x ≡ old = ground arith in
        (
          λ _. subst (λ r. From r new) (sym same_row) h,
          none_of_id x l p.0 (ap (λ r. r.id) same_row ∙ sym h.0),
        )
    | inr q ↦
        let later : find (is_for user messenger) l ≡ some old = ground arith in
        let other : Separate x old =
          find-All (Separate x) (is_for user messenger) l old p.0 later in
        (λ r. absurd (ground arith), of_id user messenger old l p.1 later h)
  ]

  -- the new key is not that of another row
  new_key :
      (x y : DigestSettings) (m ym : Option ℕ)
      → new.messenger_related_user_id ≡ m
      → y.messenger_related_user_id ≡ ym
      → is_for x.user_id x.messenger_related_user_id y ≡ false
      → From x new
      → clashes new.user_id m y ≡ false
      → is_for x.user_id m y ≡ false
  new_key x y none ym em ey s (i, u, inl same_messenger) c =
      subst (λ k. is_for x.user_id k y ≡ false) (sym same_messenger ∙ em) s
  new_key x y none ym em ey s (i, u, inr given) c = absurd (ground arith)
  new_key x y (some k) none em ey s (i, u, g) c = ground arith
  new_key x y (some k) (some j) em ey s (i, u, g) c = ground arith

  updated : DigestSettings → DigestSettings
  updated x = if x.id == new.id then update_digest_row new x else x

  updated-Separate :
      (x y : DigestSettings)
      → Separate x y
      → ((x.id == new.id) ≡ true → From x new)
      → ((y.id == new.id) ≡ true → From y new)
      → Passes new x
      → Passes new y
      → Separate (updated x) (updated y)
  unfolding updated
  updated-Separate x y s fx fy px py = elim (Bool-cases (x.id == new.id)) [
    | inl a ↦ elim (Bool-cases (y.id == new.id)) [
      | inl b ↦ absurd (ground arith)
      | inr b ↦
          rw (a, b)
            (
              s.0,
              new_key x y new.messenger_related_user_id y.messenger_related_user_id refl refl s.1
                  (fx a) (ground arith),
            )
    ]
    | inr a ↦ elim (Bool-cases (y.id == new.id)) [
      | inl b ↦
          rw (a, b)
            (
              s.0,
              is_for_sym x (update_digest_row new y)
                  ∙ new_key y x new.messenger_related_user_id x.messenger_related_user_id refl refl
                      (is_for_sym y x ∙ s.1) (fy b) (ground arith),
            )
      | inr b ↦ rw (a, b) s
    ]
  ]

  head-Separate :
      (x : DigestSettings) (l : List DigestSettings)
      → All (Separate x) l
      → ((x.id == new.id) ≡ true → From x new)
      → All (λ y. (y.id == new.id) ≡ true → From y new) l
      → Passes new x
      → All (Passes new) l
      → All (Separate (updated x)) (change (λ y. y.id == new.id) (update_digest_row new) l)
  unfolding change updated
  head-Separate x [] s fx fl px pl = tt
  head-Separate x (y ∷ l) s fx fl px pl =
      (updated-Separate x y s.0 fx fl.0 px pl.0, head-Separate x l s.1 fx fl.1 px pl.1)

  changed-Pairwise :
      (l : List DigestSettings)
      → Pairwise l
      → All (λ y. (y.id == new.id) ≡ true → From y new) l
      → All (Passes new) l
      → Pairwise (change (λ y. y.id == new.id) (update_digest_row new) l)
  unfolding change updated
  changed-Pairwise [] p f c = tt
  changed-Pairwise (x ∷ l) p f c =
      (head-Separate x l p.0 f.0 f.1 c.0 c.1, changed-Pairwise l p.1 f.1 c.1)

  -- An update of a row that was read keeps the keys apart, if the constraint lets it pass.
  pub update-Pairwise :
      (user : ℕ) (messenger : Option ℕ) (old : DigestSettings) (l : List DigestSettings)
      → Pairwise l
      → find (is_for user messenger) l ≡ some old
      → From old new
      → any (λ x. not (x.id == new.id) && clashes new.user_id new.messenger_related_user_id x) l
        ≡ false
      → Pairwise (change (λ y. y.id == new.id) (update_digest_row new) l)
  update-Pairwise user messenger old l p f h c =
      changed-Pairwise l p (of_id user messenger old l p f h) (passes l c)
