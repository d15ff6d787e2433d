-- ===== src/Service/Repository/Reads.antt =====
-- GetTaskByIDWithoutStatusFilter of internal/repository/task_repository.go.
use goreminder.Prelude.{ℕ, ◌≡◌, some, arith, Option-cases, inl, inr}
use goreminder.Models.{Task}
use goreminder.Service.World.{Env, World, pure, raise, outside, gets, ◌>>=◌}
use goreminder.Service.World.Ensures.{Ensures, Anything}
use goreminder.Service.Repository.{is_row, first_row, get_task_any_status, or_not_found}

-- a read by id finds the task
abbrev pub Reads : ℕ → Task → World → Type 0
Reads id t w = first_row (is_row id) w.tasks ≡ some t

pub get_task-Ensures : (e : Env) (id : ℕ) → Ensures Anything (get_task_any_status e id) (Reads id)
unfolding get_task_any_status ◌>>=◌ outside gets or_not_found pure raise
get_task-Ensures e id = record {
  at = λ w h t q. elim (Option-cases (e.fault w.calls)) [
    | inl f ↦ elim (Option-cases (first_row (is_row id) w.tasks)) [
      | inl g ↦ ground arith
      | inr (r, g) ↦ ground arith
    ]
    | inr (x, f) ↦ ground arith
  ];
}
