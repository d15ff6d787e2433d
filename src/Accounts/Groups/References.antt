-- ===== src/Accounts/Groups/References.antt =====
-- The groups that calendar bindings refer to are there.
use goreminder.Prelude.{
  ℕ, ◌≡◌, refl, sym, ap, ◌∙◌, Bool, true, false, not, Option, none, some, List, [], ◌∷◌, ◌++◌, any,
  length, ltb, ◌==◌, arith, All, Bool-cases, inl, inr, null,
}
use goreminder.Text.{Text}
use goreminder.Clock.{Time}
use goreminder.Errors.{conflict, validation}
use goreminder.Sync.World.{CalendarBinding}
use goreminder.Sync.Rows.{select, change}
use goreminder.Accounts.World.{AccountEnv, AccountWorld, TaskGroup}
use goreminder.Accounts.World.Triples.{
  Triple, Aside, Keeps, Triple-pure, Triple-err, Triple-gets, Triple-if, Triple-bind, Triple-weaken,
  Triple-call,
}
use goreminder.Accounts.Table.Rules.{
  Triple-get_row, Triple-change_rows, Triple-insert_row, Triple-delete_rows, Idle, Keeps-touch,
  Keeps-require_user,
}
use goreminder.Accounts.Rows
use goreminder.Accounts.Rows.Groups.{groups_table, is_group, live_group, references}
use goreminder.Accounts.Groups

-- Whoever a binding that is not deleted refers to is a group that is not deleted.
abbrev pub Grounded : List TaskGroup → CalendarBinding → Type 0
Grounded groups b = (id : ℕ) → references id b ≡ true → any (is_group id) groups ≡ true

abbrev pub HasGroups : AccountWorld → Type 0
HasGroups s = All (Grounded s.groups.list) s.bindings

aside : Aside HasGroups
aside = record { rebased = λ w s h. h }

idle : Idle HasGroups
idle = record { touched = λ s h p f same. h }

any-append_one :
    (p : TaskGroup → Bool) (l : List TaskGroup) (g : TaskGroup)
    → any p l ≡ true
    → any p (l ++ g ∷ []) ≡ true
any-append_one p [] g h = cc
any-append_one p (x ∷ l) g h = ground (arith, any-append_one p l g)

-- a change of names
any-renamed :
    (id other : ℕ) (name : Text) (l : List TaskGroup)
    → any (is_group id) (change (is_group other) (λ row. record row { name = name }) l)
      ≡ any (is_group id) l
unfolding change
any-renamed id other name [] = refl
any-renamed id other name (g ∷ l) = ground (arith, any-renamed id other name l)

-- the deletion of another group
any-deleted :
    (id gone : ℕ) (now : Time) (l : List TaskGroup)
    → (id == gone) ≡ false
    → any (is_group id) (change (is_group gone) (λ g. record g { deleted_at = some now }) l)
      ≡ any (is_group id) l
unfolding change
any-deleted id gone now [] h = refl
any-deleted id gone now (g ∷ l) h = ground (arith, any-deleted id gone now l)

module _ (old new : List TaskGroup) where
  -- what keeps the groups of the bindings
  All-Grounded_mono :
      (bindings : List CalendarBinding)
      → ((id : ℕ) → any (is_group id) old ≡ true → any (is_group id) new ≡ true)
      → All (Grounded old) bindings
      → All (Grounded new) bindings
  All-Grounded_mono [] k h = tt
  All-Grounded_mono (b ∷ bs) k h = (λ id r. k id (h.0 id r), All-Grounded_mono bs k h.1)

other_group :
    (id gone : ℕ) (b : CalendarBinding)
    → references id b ≡ true
    → references gone b ≡ false
    → (id == gone) ≡ false
other_group id gone b q r = ground arith

-- nobody refers to a group that is deleted
All-Grounded_deleted :
    (gone : ℕ) (now : Time) (groups : List TaskGroup) (bindings : List CalendarBinding)
    → length (select (references gone) bindings) ≡ 0
    → All (Grounded groups) bindings
    → All
        (Grounded (change (is_group gone) (λ g. record g { deleted_at = some now }) groups))
        bindings
unfolding select
All-Grounded_deleted gone now groups [] n h = tt
All-Grounded_deleted gone now groups (b ∷ bs) n h = elim (Bool-cases (references gone b)) [
  | inl r ↦ absurd (ground arith)
  | inr r ↦ (
    λ id q. any-deleted id gone now groups (other_group id gone b q r) ∙ h.0 id q,
    All-Grounded_deleted gone now groups bs (ground arith) h.1,
  )
]

module _ (e : AccountEnv) where
  create-HasGroups : (g : TaskGroup) → Keeps HasGroups (Groups.create_task_group e g)
  unfolding Groups.create_task_group Rows.Groups.create_task_group
  create-HasGroups g =
      Triple-if (null g.name) _ _ (λ _. Triple-err validation (λ s h. h))
        (λ _. Triple-bind _ _ (Keeps-require_user e aside g.user_id) (λ _.
          Triple-bind {Q = λ _. HasGroups} _ _
            (Triple-insert_row e aside (λ s h. h) groups_table _
              (λ s h.
                All-Grounded_mono s.groups.list _ s.bindings
                  (λ id. any-append_one (is_group id) s.groups.list _) h))
            (λ id.
              Triple-bind _ _ (Keeps-touch e aside idle g.user_id)
                (λ _. Triple-pure _ (λ s h. h)))))

  renamed-HasGroups :
      (g : TaskGroup) (name : Option Text) → Keeps HasGroups (Groups.renamed_group g name)
  renamed-HasGroups g none = Triple-pure _ (λ s h. h)
  renamed-HasGroups g (some name) =
      Triple-if (null name) _ _ (λ _. Triple-err validation (λ s h. h))
        (λ _. Triple-pure _ (λ s h. h))

  update-HasGroups :
      (id : ℕ) (name : Option Text) → Keeps HasGroups (Groups.update_task_group e id name)
  unfolding Groups.update_task_group Rows.Groups.update_task_group Rows.Groups.get_task_group_by_id
  update-HasGroups id name =
      Triple-bind _ _
        (Triple-weaken _ (λ s h. h) (λ a s h. h.0)
          (Triple-get_row e aside (λ s h. h) groups_table (is_group id)))
        (λ old. Triple-bind _ _ (renamed-HasGroups old name) (λ new.
          Triple-bind {Q = λ _. HasGroups} _ _
            (Triple-change_rows e aside (λ s h. h) groups_table _ _
              (λ s h.
                All-Grounded_mono s.groups.list _ s.bindings
                  (λ other q. any-renamed other new.id new.name s.groups.list ∙ q) h))
            (λ _.
              Triple-bind _ _ (Keeps-touch e aside idle new.user_id)
                (λ _. Triple-pure _ (λ s h. h)))))

  -- nobody refers to the group
  abbrev Unreferenced : ℕ → AccountWorld → Type 0
  Unreferenced id s = HasGroups s × (length (select (references id) s.bindings) ≡ 0)

  check-Unreferenced :
      e.has_bindings ≡ true
      → (id : ℕ)
      → Triple HasGroups (Groups.check_unreferenced e id) (λ _. Unreferenced id) HasGroups
  unfolding Groups.check_unreferenced Rows.Groups.count_by_group_id
  check-Unreferenced on id =
      Triple-if (not e.has_bindings) _ _ (λ off. absurd (ground arith))
        (λ _.
          Triple-bind {Q = λ n s. HasGroups s × (n ≡ length (select (references id) s.bindings))} _
            _
            (Triple-bind _ _ (Triple-call e aside (λ s h. h)) (λ _.
              Triple-bind _ _ (Triple-gets (λ s. s.bindings)) (λ bindings.
                Triple-pure _ (λ s h. (h.0, ap (λ l. length (select (references id) l)) h.1)))))
            (λ n.
              Triple-if (ltb 0 n) _ _ (λ _. Triple-err conflict (λ s h. h.0))
                (λ z. Triple-pure tt (λ s h. (h.0, sym h.1 ∙ ground arith)))))

  delete-HasGroups :
      e.has_bindings ≡ true → (id : ℕ) → Keeps HasGroups (Groups.delete_task_group e id)
  unfolding Groups.delete_task_group Rows.Groups.delete_task_group Rows.Groups.get_task_group_by_id
  delete-HasGroups on id =
      Triple-bind _ _
        (Triple-weaken _ (λ s h. h) (λ a s h. h.0)
          (Triple-get_row e aside (λ s h. h) groups_table (is_group id)))
        (λ group. Triple-bind _ _ (check-Unreferenced on id) (λ _.
          Triple-bind {Q = λ _. HasGroups} _ _
            (Triple-weaken _ (λ s h. h) (λ _ s h. h.0)
              (Triple-delete_rows e (record { rebased = λ w s h. h }) (λ s h. h.0) groups_table _ _
                (λ s h now. (All-Grounded_deleted id now s.groups.list s.bindings h.1 h.0, h.1))))
            (λ _. Keeps-touch e aside idle group.user_id)))

  -- Where the bindings are wired in, the methods of the group service keep every binding's group:
  -- a binding that is not deleted refers to a group that is not deleted, before and after, however
  -- the method ends.
  pub task_groups-HasGroups :
      e.has_bindings ≡ true
      → (g : TaskGroup) (id : ℕ) (name : Option Text)
      → Keeps HasGroups (Groups.create_task_group e g)
        × Keeps HasGroups (Groups.update_task_group e id name)
        × Keeps HasGroups (Groups.delete_task_group e id)
  task_groups-HasGroups on g id name =
      (create-HasGroups g, update-HasGroups id name, delete-HasGroups on id)
