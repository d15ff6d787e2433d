-- ===== src/Recurrence.antt =====
-- internal/service/task_recurrence.go: recurrence rules of tasks (Rules), their next occurrences
-- (Next) and their shift from a completion date (Shift).
pub mod Rules
pub mod Next
pub mod Shift
