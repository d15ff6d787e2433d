-- ===== src/Service/Create/Stored.antt =====
-- The rows that CreateTask (internal/service/task_service.go) stores.
use goreminder.Prelude.{
  ℕ, ◌≡◌, refl, ap, ◌∙◌, false, ◌&&◌, Option, List, [], ◌∷◌, ◌++◌, All, All-append, arith,
}
use mathlib.Core.List.{append_assoc}
use goreminder.Errors.{Outcome, ok, err, panicked}
use goreminder.Text.{Text}
use goreminder.Models.{Task}
use goreminder.PreRemind.{
  validate_pre_remind, clear_zero_offset, IsOffset, clear_zero-IsOffset, clone-IsOffset,
}
use goreminder.Recurrence.Rules.{
  recurrence_field_set, validate_exclusive, is_recurrence_parent_with_confirmation,
}
use goreminder.Service.World.{Env, World, pure, outside, modify, gets, ◌>>=◌}
use goreminder.Service.World.Keeps.{
  Keeps, Keeps-pure, Keeps-lift, Keeps-gets, Keeps-modify, Keeps-attempt, Keeps-if, Keeps-then,
  Keeps-bind, Keeps-outside,
}
use goreminder.Service.World.Ensures.{Ensures, Ensures-bind}
use goreminder.Service.World.Returns.{
  Returns, Returns-ok, Returns-pure, Returns-lift_ok, Returns-bind, Returns-after,
}
use goreminder.Service.Repository.{inserted, insert_task}
use goreminder.Service.Repository.Transaction.{SameTasks}
use goreminder.Service.Frame.{
  Blind, record_history-Keeps, touch_user_activity-Keeps, notify_calendar_export-Keeps,
}
use goreminder.Service.Create.{
  check_new_task, child_id_of, create_first_child, after_create, create_task,
}
use goreminder.Service.Create.Checks.{check_new_task-Keeps}

-- not both an expression and a rule, and no offset or one from a second to 30 days
abbrev pub IsAccepted : Task → Type 0
IsAccepted t =
    ((recurrence_field_set t.cron_expression && recurrence_field_set t.rrule) ≡ false)
    × IsOffset t.pre_remind_before_seconds

-- the row says what the request says
abbrev pub Says : Task → Task → Type 0
Says t row =
    (row.title ≡ t.title)
    × (row.start_date ≡ t.start_date)
    × (row.cron_expression ≡ t.cron_expression)
    × (row.rrule ≡ t.rrule)
    × (row.pre_remind_before_seconds ≡ clear_zero_offset t.pre_remind_before_seconds)

-- The rows from before are followed by the row of the task, and by those of its children.
abbrev pub Stored : Task → List Task → ℕ × ℕ → World → Type 0
Stored t rows ids s =
    (row : Task) × (rest : List Task) × (s.tasks ≡ rows ++ row ∷ rest)
    × (row.id ≡ ids.0)
    × Says t row
    × IsAccepted row
    × All IsAccepted rest

exclusive :
    (a b : Option Text)
    → validate_exclusive a b ≡ ok tt
    → (recurrence_field_set a && recurrence_field_set b) ≡ false
unfolding validate_exclusive
exclusive a b h = ground arith

check_new_task-Returns :
    (e : Env) (t : Task) → Returns (check_new_task e t) (λ row. Says t row × IsAccepted row)
unfolding check_new_task
check_new_task-Returns e t = Returns-after _ _ λ _. Returns-after _ _ λ status.
    Returns-after _ _ λ _.
      Returns-bind _ _ (Returns-lift_ok (validate_exclusive t.cron_expression t.rrule)) λ _ one.
        Returns-after _ _ λ _.
          Returns-bind _ _ (Returns-lift_ok (validate_pre_remind t.pre_remind_before_seconds))
            λ _ offset. Returns-after _ _ λ _. Returns-pure _ (
              (refl, refl, refl, refl, refl),
              (
                exclusive t.cron_expression t.rrule one,
                clear_zero-IsOffset t.pre_remind_before_seconds offset,
              ),
            )

after_create-Returns : (e : Env) (t : Task) → Returns (after_create e t) (λ ids. t.id ≡ ids.0)
unfolding after_create
after_create-Returns e t = Returns-after _ _ λ _.
    Returns-after _ _ λ child. Returns-after _ _ λ _. Returns-after _ _ λ _. Returns-pure _ refl

insert_task-Ensures :
    (e : Env) (rows : List Task) (row : Task)
    → Ensures (SameTasks rows) (insert_task e row) (λ id s. s.tasks ≡ rows ++ inserted id row ∷ [])
unfolding insert_task ◌>>=◌ outside gets modify pure
insert_task-Ensures e rows row = record { at = λ w h id q. ground arith }

module _ (e : Env) (rows : List Task) (new : Task) where
  -- the new row stands, and accepted rows after it
  Followed : World → Type 0
  Followed s = (rest : List Task) × (s.tasks ≡ rows ++ new ∷ rest) × All IsAccepted rest

  Followed-Blind : Blind Followed
  unfolding Followed
  Followed-Blind = record {
    ticks = λ w h. h;
    queues = λ m w h. h;
    histories = λ m w h. h;
    exported = λ m w h. h;
    active = λ m w h. h;
    purged = λ m w h. h;
  }

  insert_task-Followed : (row : Task) → IsAccepted row → Keeps Followed (insert_task e row)
  unfolding insert_task Followed
  insert_task-Followed row accepted = Keeps-then _ _ (Keeps-outside e Followed-Blind.ticks) (
      Keeps-bind _ _ (Keeps-gets _) λ id.
        Keeps-then _ _
          (Keeps-modify _ λ w (rest, tasks, all). (
            rest ++ inserted id row ∷ [],
            ap (λ l. l ++ inserted id row ∷ []) tasks
                ∙ append_assoc rows (new ∷ rest) (inserted id row ∷ []),
            All-append IsAccepted rest (inserted id row ∷ []) all (accepted, tt),
          ))
          (Keeps-pure id))

  child_id_of-Followed : (r : Outcome ℕ) → Keeps Followed (child_id_of e r)
  unfolding child_id_of
  child_id_of-Followed (ok id) = Keeps-pure id
  child_id_of-Followed (err x) = Keeps-pure 0
  child_id_of-Followed panicked = Keeps-lift panicked

  create_first_child-Followed :
      (t : Task) → IsOffset t.pre_remind_before_seconds → Keeps Followed (create_first_child e t)
  unfolding create_first_child recurrence_field_set
  create_first_child-Followed t offset =
      Keeps-if (is_recurrence_parent_with_confirmation t) _ _
        (λ _.
          Keeps-bind _ _
            (Keeps-attempt _
              (insert_task-Followed _ (refl, clone-IsOffset t.pre_remind_before_seconds offset)))
            child_id_of-Followed)
        (λ _. Keeps-pure 0)

  after_create-Followed :
      (t : Task) → IsOffset t.pre_remind_before_seconds → Keeps Followed (after_create e t)
  unfolding after_create
  after_create-Followed t offset = Keeps-then _ _ (record_history-Keeps e Followed-Blind _) (
      Keeps-bind _ _ (create_first_child-Followed t offset) λ child.
        Keeps-then _ _ (touch_user_activity-Keeps e Followed-Blind t.user_id) (
          Keeps-then _ _ (notify_calendar_export-Keeps e Followed-Blind t.id _)
            (Keeps-pure (t.id, child))))

module _ (e : Env) (rows : List Task) (t : Task) where
  check-Ensures :
      Ensures
        (SameTasks rows)
        (check_new_task e t)
        (λ row s. SameTasks rows s × Says t row × IsAccepted row)
  check-Ensures = record {
    at = λ w h row q.
        let (says, accepted) = Returns-ok _ (check_new_task-Returns e t) w row q in
        ((check_new_task-Keeps e rows t).at w h, says, accepted);
  }

  insert-Ensures :
      (row : Task)
      → Ensures
          (λ s. SameTasks rows s × Says t row × IsAccepted row)
          (insert_task e row)
          (λ id s. (s.tasks ≡ rows ++ inserted id row ∷ []) × Says t row × IsAccepted row)
  insert-Ensures row = record {
    at = λ w h id q. ((insert_task-Ensures e rows row).at w h.0 id q, h.1, h.2);
  }

  after-Ensures :
      (row : Task) (id : ℕ)
      → Ensures
          (λ s. (s.tasks ≡ rows ++ inserted id row ∷ []) × Says t row × IsAccepted row)
          (after_create e (record row { id = id }))
          (Stored t rows)
  unfolding Followed
  after-Ensures row id = record {
    at = λ w h ids q.
        let (rest, tasks, all) =
          (after_create-Followed e rows (inserted id row) (record row { id = id }) h.2.1).at w
            ([], h.0, tt) in
        (
          inserted id row,
          rest,
          tasks,
          Returns-ok _ (after_create-Returns e (record row { id = id })) w ids q,
          h.1,
          h.2,
          all,
        );
  }

-- A task that CreateTask accepted is stored: behind the rows from before there is one with the
-- returned id and with the title, the start, the expression and the rule of the request and its
-- offset, a zero of which is cleared; each new row has at most one of an expression and a rule, and
-- no offset or one from one second to 30 days.
pub create_task-Stored :
    (e : Env) (t : Task) (w : World) (ids : ℕ × ℕ)
    → (create_task e t w).0 ≡ ok ids
    → Stored t w.tasks ids (create_task e t w).1
unfolding create_task
create_task-Stored e t w ids done =
    (Ensures-bind _ _ (check-Ensures e w.tasks t)
        λ row. Ensures-bind _ _ (insert-Ensures e w.tasks t row) (after-Ensures e w.tasks t row)).at
      w refl ids done
