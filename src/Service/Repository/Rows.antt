-- ===== src/Service/Repository/Rows.antt =====
-- What a read by id gives after the statements of internal/repository/task_repository.go.
use goreminder.Prelude.{
  ℕ, ◌≡◌, refl, Bool, true, false, Option, none, some, List, [], ◌∷◌, ◌++◌, ◌==◌, Bool-cases, inl,
  inr, arith, if◌then◌else◌,
}
use mathlib.Core.Path.{subst, sym}
use goreminder.Clock.{Time}
use goreminder.Models.{Task}
use goreminder.Service.World.{TxWrite, update, delete, delete_children}
use goreminder.Service.Repository.{
  is_row, first_row, update_row, delete_row, update_where, apply_write, apply_writes,
}

-- A read by id finds no live row.
abbrev pub NoRow : ℕ → List Task → Type 0
NoRow id rows = first_row (is_row id) rows ≡ none

pub first_row_sound :
    (p : Task → Bool) (rows : List Task) (t : Task) → first_row p rows ≡ some t → p t ≡ true
unfolding first_row
first_row_sound p [] t h = cc
first_row_sound p (row ∷ rows) t h = elim (Bool-cases (p row)) [
  | inl e ↦ ground arith
  | inr e ↦ first_row_sound p rows t (ground arith)
]

abbrev map_row : (Task → Task) → Option Task → Option Task
map_row f none = none
map_row f (some t) = some (f t)

abbrev when : (Task → Bool) → (Task → Task) → Task → Task
when p f row = if p row then f row else row

-- An update of columns other than the id and `deleted_at` changes the row that a read finds.
pub first_row-update_where :
    (id : ℕ) (p : Task → Bool) (new : Task) (rows : List Task)
    → first_row (is_row id) (update_where p (update_row new) rows)
      ≡ map_row (when p (update_row new)) (first_row (is_row id) rows)
unfolding first_row update_where
first_row-update_where id p new [] = refl
first_row-update_where id p new (row ∷ rows) = ground (arith, first_row-update_where id p new rows)

NoRow-delete_where :
    (id : ℕ) (p : Task → Bool) (at : Time) (rows : List Task)
    → NoRow id rows
    → NoRow id (update_where p (delete_row at) rows)
unfolding first_row update_where
NoRow-delete_where id p at [] h = refl
NoRow-delete_where id p at (row ∷ rows) h = ground (arith, NoRow-delete_where id p at rows)

-- A deleted row stays deleted.
pub NoRow-apply_write :
    (id : ℕ) (x : TxWrite) (rows : List Task) → NoRow id rows → NoRow id (apply_write x rows)
unfolding apply_write
NoRow-apply_write id (update new) rows h = cc (first_row-update_where id (is_row new.id) new rows)
NoRow-apply_write id (delete i at) rows h = NoRow-delete_where id _ at rows h
NoRow-apply_write id (delete_children pid at) rows h = NoRow-delete_where id _ at rows h

-- A delete by id leaves no live row of that id.
pub NoRow-delete :
    (id : ℕ) (at : Time) (rows : List Task) → NoRow id (apply_write (delete id at) rows)
unfolding apply_write first_row update_where
NoRow-delete id at [] = refl
NoRow-delete id at (row ∷ rows) = ground (arith, NoRow-delete id at rows)

-- Some write is the delete of `id`.
unfoldable pub has_delete : ℕ → List TxWrite → Bool
has_delete id [] = false
has_delete id (update t ∷ writes) = has_delete id writes
has_delete id (delete i at ∷ writes) = if i == id then true else has_delete id writes
has_delete id (delete_children pid at ∷ writes) = has_delete id writes

pub has_delete-append :
    (id : ℕ) (writes more : List TxWrite)
    → has_delete id writes ≡ true
    → has_delete id (writes ++ more) ≡ true
unfolding has_delete
has_delete-append id [] more h = cc
has_delete-append id (update t ∷ writes) more h = has_delete-append id writes more h
has_delete-append id (delete i at ∷ writes) more h =
    ground (arith, has_delete-append id writes more)
has_delete-append id (delete_children pid at ∷ writes) more h = has_delete-append id writes more h

pub has_delete-last :
    (id : ℕ) (writes : List TxWrite) (at : Time)
    → has_delete id (writes ++ delete id at ∷ []) ≡ true
unfolding has_delete
has_delete-last id [] at = ground arith
has_delete-last id (update t ∷ writes) at = has_delete-last id writes at
has_delete-last id (delete i b ∷ writes) at = ground (arith, has_delete-last id writes at)
has_delete-last id (delete_children pid b ∷ writes) at = has_delete-last id writes at

NoRow-apply_writes :
    (id : ℕ) (writes : List TxWrite) (rows : List Task)
    → NoRow id rows
    → NoRow id (apply_writes writes rows)
unfolding apply_writes
NoRow-apply_writes id [] rows h = h
NoRow-apply_writes id (x ∷ writes) rows h =
    NoRow-apply_writes id writes _ (NoRow-apply_write id x rows h)

-- A list of writes with a delete of `id` leaves no live row of that id, whatever comes after it.
pub NoRow-has_delete :
    (id : ℕ) (writes : List TxWrite) (rows : List Task)
    → has_delete id writes ≡ true
    → NoRow id (apply_writes writes rows)
unfolding apply_writes has_delete
NoRow-has_delete id [] rows h = cc
NoRow-has_delete id (update t ∷ writes) rows h = NoRow-has_delete id writes _ h
NoRow-has_delete id (delete i at ∷ writes) rows h = elim (Bool-cases (i == id)) [
  | inl e ↦
      let q : i ≡ id = ground arith in
      NoRow-apply_writes id writes _
        (subst (λ j. NoRow id (apply_write (delete j at) rows)) (sym q) (NoRow-delete id at rows))
  | inr e ↦ NoRow-has_delete id writes _ (ground arith)
]
NoRow-has_delete id (delete_children pid at ∷ writes) rows h = NoRow-has_delete id writes _ h
