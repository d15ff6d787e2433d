-- ===== src/Accounts/Table/Pages.antt =====
-- The pages of a list method, one after the other.
use goreminder.Prelude.{
  ℕ, zero, suc, ◌+◌, ◌-◌, ◌*◌, ◌%◌, ◌≤◌, ◌<◌, ◌≡◌, refl, sym, ap, ◌∙◌, Bool, true, List, [], ◌∷◌,
  ◌++◌, length, ltb, ◌==◌, arith, if◌then◌else◌,
}
use goreminder.Prelude.Int.{pos}
use mathlib.Core.Path.{subst}
use native.Mathlib.Nat.{suc-mul}
use goreminder.Text.{Text}
use goreminder.Sync.Rows.{select, first_n}
use goreminder.Accounts.World.{AccountEnv, AccountWorld, Accounts, pure, ◌>>=◌}
use goreminder.Accounts.World.Triples.{
  Triple, Aside, Triple-pure, Triple-gets, Triple-bind, Triple-weaken, Triple-call, Triple-frame,
}
use goreminder.Accounts.Table.{
  Table, page_number, page_limit, order_or_default, int_limit, skip_n, page_rows, get_page,
}
use goreminder.Accounts.Table.Rules.{Triple-count_rows}

-- a client that reads the pages 1 to n
abbrev pub read_pages : {A : Type 0} → (ℕ → Accounts (List A × ℕ)) → ℕ → Accounts (List A)
read_pages read zero = pure []
read_pages read (suc n) = do
  front ← read_pages read n
  answer ← read (suc n)
  pure (front ++ answer.0)

offset_lem :
    (k size : ℕ) → suc k * size < int_limit → (suc k - 1) * size % (2 * int_limit) ≡ k * size
offset_lem k size fits =
    let q : suc k - 1 ≡ k = omega arith in
    let r : k * size % (2 * int_limit) ≡ k * size = omega (arith, suc-mul k size) in
    ap (λ n. n * size % (2 * int_limit)) q ∙ r

lt→ltb : (a b : ℕ) → a < b → ltb a b ≡ true
lt→ltb a b h = ground arith

module _ {A : Type 0} where
  first_n-zero : (n : ℕ) (l : List A) → n ≡ 0 → first_n n l ≡ []
  unfolding first_n
  first_n-zero zero l h = refl
  first_n-zero (suc n) l h = absurd (omega arith)

  first_n-nil : (n : ℕ) → first_n {A = A} n [] ≡ []
  unfolding first_n
  first_n-nil zero = refl
  first_n-nil (suc n) = refl

  first_n-skip_n :
      (a b : ℕ) (l : List A) → first_n a l ++ first_n b (skip_n a l) ≡ first_n (a + b) l
  unfolding first_n skip_n
  first_n-skip_n zero b l = let q : b ≡ 0 + b = omega arith in ap (λ k. first_n k l) q
  first_n-skip_n (suc a) b [] = first_n-nil b ∙ sym (first_n-nil (suc a + b))
  first_n-skip_n (suc a) b (x ∷ l) =
      let q : suc (a + b) ≡ suc a + b = omega arith in
      ap (λ k. x ∷ k) (first_n-skip_n a b l) ∙ ap (λ k. first_n k (x ∷ l)) q

  pub first_n-all : (n : ℕ) (l : List A) → length l ≤ n → first_n n l ≡ l
  unfolding first_n
  first_n-all zero [] h = refl
  first_n-all zero (x ∷ l) h = absurd (omega arith)
  first_n-all (suc n) [] h = refl
  first_n-all (suc n) (x ∷ l) h = ap (λ k. x ∷ k) (first_n-all n l (omega arith))

  page_lem :
      (k size : ℕ) (l : List A)
      → suc k * size < int_limit
      → 0 < size
      → page_rows (page_number (pos (suc k))) (page_limit (pos size)) l
        ≡ pure (first_n size (skip_n (k * size) l))
  unfolding page_rows page_number page_limit
  page_lem k size l fits some_rows =
      let q : (suc k - 1) * size % (2 * int_limit) ≡ k * size = offset_lem k size fits in
      let r : k * size < int_limit = omega (arith, suc-mul k size) in
      let a : (if suc k == 0 then 1 else suc k) ≡ suc k = ground arith in
      let c : (if size == 0 then 50 else size) ≡ size = ground arith in
      rw (a, c, q, lt→ltb _ _ r) refl

module _ {A : Type 0} {P E : AccountWorld → Type 0} (e : AccountEnv) (b : Aside P)
    (x : (s : AccountWorld) → P s → E s) (t : Table A) (order : ℕ → Text → List A → List A)
    (p : A → Bool) (order_by : Text) (ordered : List A)
    (fixed : (s : AccountWorld)
      → P s
      → (n : ℕ) → order n (order_or_default order_by) (select p (t.rows s).list) ≡ ordered) where
  page :
      (k size : ℕ)
      → suc k * size < int_limit
      → 0 < size
      → Triple P
          (get_page e t order p (pos (suc k)) (pos size) order_by)
          (λ answer s. P s × (answer.0 ≡ first_n size (skip_n (k * size) ordered)))
          E
  unfolding get_page
  page k size fits some_rows =
      Triple-bind _ _ (Triple-weaken _ (λ s h. h) (λ _ s h. h.0) (Triple-count_rows e b x t p))
        (λ total.
          Triple-bind {Q = λ _. P} _ _
            (Triple-weaken _ (λ s h. h) (λ _ s h. h.0) (Triple-gets (λ s. s.base.calls)))
            (λ n. Triple-bind _ _ (Triple-call e b x) (λ _.
              Triple-bind _ _ (Triple-gets t.rows) (λ rows.
                rw
                  (page_lem k size (order n (order_or_default order_by) (select p rows.list)) fits
                    some_rows)
                  (Triple-bind
                    {Q = λ found s. P s × (found ≡ first_n size (skip_n (k * size) ordered))} _ _
                    (Triple-pure _ (λ s h. (
                      h.0,
                      subst
                          (λ r.
                            first_n size (
                              skip_n (k * size)
                                (order n (order_or_default order_by) (select p r.list)))
                            ≡ first_n size (skip_n (k * size) ordered))
                          (sym h.1) (ap (λ l. first_n size (skip_n (k * size) l)) (fixed s h.0 n)),
                    )))
                    (λ found. Triple-pure _ (λ s h. h)))))))

  pub read_pages-first_n :
      (n size : ℕ)
      → n * size < int_limit
      → 0 < size
      → Triple P
          (read_pages (λ k. get_page e t order p (pos k) (pos size) order_by) n)
          (λ l s. P s × (l ≡ first_n (n * size) ordered))
          E
  read_pages-first_n zero size fits some_rows =
      Triple-pure [] (λ s h. (h, sym (first_n-zero (0 * size) ordered (omega arith))))
  read_pages-first_n (suc n) size fits some_rows =
      let rest : n * size < int_limit = omega (arith, suc-mul n size) in
      Triple-bind _ _ (read_pages-first_n n size rest some_rows) (λ front.
        Triple-bind _ _ (Triple-frame _ (page n size fits some_rows)) (λ answer.
          Triple-pure _ (λ s h. (
            h.0.0,
            (λ i. h.1 i ++ h.0.1 i)
                ∙ (first_n-skip_n (n * size) size ordered
                    ∙ ap (λ k. first_n k ordered) (sym (suc-mul n size))),
          ))))
