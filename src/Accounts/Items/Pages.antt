-- ===== src/Accounts/Items/Pages.antt =====
-- The pages of backlogs together.
use goreminder.Prelude.{
  ℕ, suc, ◌*◌, ◌≤◌, ◌<◌, ◌≡◌, refl, sym, ap, ◌∙◌, Bool, ◌&&◌, Option, none, List, length, arith,
}
use goreminder.Prelude.Int.{pos}
use mathlib.Core.Path.{subst}
use mathlib.Core.List.{Permᴰ}
use goreminder.Text.{Text}
use goreminder.Sync.Rows.{select}
use goreminder.Accounts.World.{AccountEnv, Item}
use goreminder.Accounts.World.Triples.{Triple, Triple-weaken}
use goreminder.Accounts.Table.{int_limit, order_or_default, if_given}
use goreminder.Accounts.Table.Pages.{read_pages, first_n-all, read_pages-first_n}
use goreminder.Accounts.Rows
use goreminder.Accounts.Rows.Items.{backlogs_table, is_wanted, has_completion}
use goreminder.Accounts.Lookups
use goreminder.Accounts.Items

length-perm : {A : Type 0} {l m : List A} → Permᴰ l m → length l ≡ length m
length-perm Permᴰ.nil = refl
length-perm (Permᴰ.cons h p) = ap (λ n. suc n) (length-perm p)
length-perm (Permᴰ.swap h k) = refl
length-perm (Permᴰ.trans p q) = length-perm p ∙ length-perm q

-- the rows that a list of backlogs is about
abbrev pub listed : Option ℕ → Option Bool → List Item → List Item
listed user completed rows =
    select (λ i. is_wanted user none i && if_given (λ c. has_completion c i) completed) rows

-- A client that reads the pages 1 to n of the backlogs, with no messenger filter, gets every row
-- that matches, and each once, if the pages are enough for the rows, the last offset is an int64,
-- ORDER BY gives a permutation of the rows, and no two rows tie in it, so that each query has the
-- same order. The query does not break ties by itself. The table stays as it was.
pub get_all_backlogs-pages :
    (e : AccountEnv) (n size : ℕ) (order_by : Text) (user : Option ℕ) (completed : Option Bool)
    (rows : List Item)
    → ((k : ℕ) (order : Text) (l : List Item) → Permᴰ (e.order_items k order l) l)
    → ((k : ℕ)
        → e.order_items k (order_or_default order_by) (listed user completed rows)
          ≡ e.order_items 0 (order_or_default order_by) (listed user completed rows))
    → 0 < size
    → n * size < int_limit
    → length (listed user completed rows) ≤ n * size
    → Triple
        (λ s. s.backlogs.list ≡ rows)
        (read_pages
          (λ k. Items.get_all_backlogs e (pos k) (pos size) order_by user completed none)
          n)
        (λ l s. (s.backlogs.list ≡ rows) × Permᴰ l (listed user completed rows))
        (λ s. s.backlogs.list ≡ rows)
unfolding Items.get_all_backlogs Lookups.by_messenger_user Rows.Items.get_all_backlogs
get_all_backlogs-pages e n size order_by user completed rows permutes untied some_rows fits enough =
    let found : List Item = listed user completed rows in
    let ordered : List Item = e.order_items 0 (order_or_default order_by) found in
    let same : Permᴰ ordered found = permutes 0 (order_or_default order_by) found in
    let few : length ordered ≤ n * size = omega (arith, length-perm same) in
    Triple-weaken _ (λ s h. h)
      (λ l s h.
        (h.0, subst (λ k. Permᴰ k found) (sym (h.1 ∙ first_n-all (n * size) ordered few)) same))
      (read_pages-first_n e (record { rebased = λ w s h. h }) (λ s h. h) backlogs_table
        e.order_items _ order_by ordered
        (λ s h k.
          ap (λ r. e.order_items k (order_or_default order_by) (listed user completed r)) h
          ∙ untied k)
        n size fits some_rows)
