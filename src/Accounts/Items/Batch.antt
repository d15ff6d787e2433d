-- ===== src/Accounts/Items/Batch.antt =====
-- The rows that a batch of backlogs makes.
use goreminder.Prelude.{
  ℕ, ◌≡◌, refl, sym, ap, ◌∙◌, true, false, Option, List, [], ◌∷◌, ◌++◌, map, null, inl, inr, arith,
  if◌then◌else◌, All, Bool-cases, Option-cases,
}
use mathlib.Core.List.{append_assoc, append-nil, Sublistᴰ}
use goreminder.Text.{Text, trim_space, split_by}
use goreminder.Errors.{Outcome, ok, err, panicked, unprocessable_entity}
use goreminder.Service.World.{outside}
use goreminder.Accounts.World.{
  AccountEnv, AccountWorld, Item, pure, service, gets, modify, attempt, call, ◌>>=◌,
}
use goreminder.Accounts.World.Triples.{
  Triple, Aside, Triple-pure, Triple-err, Triple-if, Triple-bind, Triple-fails,
}
use goreminder.Accounts.Table.{insert_row}
use goreminder.Accounts.Table.Rules.{Triple-touch, Keeps-require_user, Keeps-check_related_user}
use goreminder.Accounts.Rows
use goreminder.Accounts.Rows.Items.{backlogs_table, new_item}
use goreminder.Accounts.Items
use goreminder.Accounts.Items.{backlog_of, separator_or_newline}

-- the titles that the lines ask for
abbrev pub wanted : List Text → List Text
wanted [] = []
wanted (line ∷ lines) =
    if null (trim_space line) then wanted lines else trim_space line ∷ wanted lines

-- a row of the user, open and not deleted
abbrev pub IsBacklogOf : ℕ → Option ℕ → Item → Type 0
IsBacklogOf user related i = i ≡ new_item (backlog_of i.title user related) i.id

-- The table is `old` with new rows at its end: one for each id, with some of the titles, in their
-- order.
abbrev pub Batch : ℕ → Option ℕ → List Text → List Item → List ℕ → AccountWorld → Type 0
Batch user related titles old ids s =
    (added : List Item) × (s.backlogs.list ≡ old ++ added)
    × (map (λ i. i.id) added ≡ ids)
    × Sublistᴰ (map (λ i. i.title) added) titles
    × All (IsBacklogOf user related) added

abbrev pub At : List Item → AccountWorld → Type 0
At rows s = s.backlogs.list ≡ rows

abbrev Never : AccountWorld → Type 0
Never s = ⊥

module _ (e : AccountEnv) (user : ℕ) (related : Option ℕ) where
  -- what an attempt to insert a row leaves
  abbrev Made : List Item → Text → Outcome ℕ → AccountWorld → Type 0
  Made old title (ok id) s = At (old ++ new_item (backlog_of title user related) id ∷ []) s
  Made old title (err x) s = At old s
  Made old title panicked s = ⊥

  made :
      (old : List Item) (title : Text)
      → Triple
          (At old)
          (attempt (Rows.Items.create_backlog e (backlog_of title user related)))
          (Made old title)
          Never
  unfolding Rows.Items.create_backlog insert_row attempt call service outside ◌>>=◌ gets modify pure
  made old title = record {
    at = λ s h. elim (Option-cases (e.base.fault s.base.calls)) [
      | inl f ↦
          rw f (ap (λ l. l ++ new_item (backlog_of title user related) s.backlogs.next_id ∷ []) h)
      | inr (x, f) ↦ rw f h
    ];
  }

  abbrev pub Batched : List Text → List Item → List ℕ → AccountWorld → Type 0
  Batched = Batch user related

  collected :
      (old : List Item) (title : Text) (lines : List Text) (o : Outcome ℕ)
      → ((rows : List Item)
          → Triple
              (At rows)
              (Items.create_lines e user related lines)
              (Batched (wanted lines) rows)
              Never)
      → Triple
          (Made old title o)
          (Items.create_lines e user related lines >>= Items.created o)
          (Batched (title ∷ wanted lines) old)
          Never
  collected old title lines (ok id) k =
      let new : Item = new_item (backlog_of title user related) id in
      Triple-bind _ _ (k (old ++ new ∷ [])) (λ ids.
        Triple-pure _ (λ s (added, rows, of_ids, titles, all). (
          new ∷ added,
          rows ∙ append_assoc old (new ∷ []) added,
          ap (λ l. id ∷ l) of_ids,
          Sublistᴰ.cons-cons refl titles,
          (refl, all),
        )))
  collected old title lines (err x) k = Triple-bind _ _ (k old) (λ ids.
      Triple-pure _
        (λ s (added, rows, of_ids, titles, all). (added, rows, of_ids, Sublistᴰ.cons titles, all)))
  collected old title lines panicked k = record { at = λ s h. absurd h }

  lines-Batch :
      (lines : List Text) (old : List Item)
      → Triple (At old) (Items.create_lines e user related lines) (Batched (wanted lines) old) Never
  unfolding Items.create_lines
  lines-Batch [] old =
      Triple-pure [] (λ s h. ([], h ∙ sym (append-nil old), refl, Sublistᴰ.slnil, tt))
  lines-Batch (line ∷ lines) old = elim (Bool-cases (null (trim_space line))) [
    | inl blank ↦ rw blank (lines-Batch lines old)
    | inr given ↦ rw given (
        Triple-bind _ _ (made old (trim_space line))
          (λ o. collected old (trim_space line) lines o (lines-Batch lines)))
  ]

  abbrev pub Stored : Text → Text → List Item → List ℕ → AccountWorld → Type 0
  Stored items separator old ids s =
      (null ids ≡ false)
      × Batched (wanted (split_by (separator_or_newline separator) items)) old ids s

  nothing_made :
      (titles : List Text) (old : List Item) (ids : List ℕ) (s : AccountWorld)
      → null ids ≡ true
      → Batched titles old ids s
      → At old s
  nothing_made titles old ids s none_made ([], rows, of_ids, _, _) = rows ∙ append-nil old
  nothing_made titles old ids s none_made (i ∷ l, rows, of_ids, _, _) = absurd (ground arith)

  -- CreateBacklogsBatch fails and leaves the rows as they are, or it succeeds with one or more ids:
  -- then new rows of the user stand at the end of the table, one for each id, whose titles are
  -- trimmed lines of the text that are not empty, in their order.
  pub create_backlogs_batch-Stored :
      (items separator : Text) (old : List Item)
      → Triple
          (At old)
          (Items.create_backlogs_batch e items separator user related)
          (Stored items separator old)
          (At old)
  unfolding Items.create_backlogs_batch
  create_backlogs_batch-Stored items separator old =
      let titles : List Text = wanted (split_by (separator_or_newline separator) items) in
      let aside : Aside (At old) = record { rebased = λ w s h. h } in
      Triple-bind _ _ (Keeps-require_user e aside user) (λ _.
        Triple-bind _ _ (Keeps-check_related_user e aside related) (λ _.
          Triple-bind _ _ (Triple-fails _ (λ s h. absurd h) (lines-Batch _ old)) (λ ids.
            Triple-if (null ids) _ _
              (λ none_made.
                Triple-err unprocessable_entity (λ s h. nothing_made titles old ids s none_made h))
              (λ some_made.
                Triple-bind {Q = λ _ s. Batched titles old ids s} _ _
                  (Triple-touch e (record { rebased = λ w s h. h })
                    (record { touched = λ s h p f same. h }) user)
                  (λ _. Triple-pure ids (λ s h. (some_made, h)))))))
