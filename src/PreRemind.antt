-- ===== src/PreRemind.antt =====
-- internal/service/task_pre_remind.go: the offset of the preliminary reminder.
use goreminder.Prelude.{◌≡◌, Bool, true, false, ◌&&◌, Option, none, some, arith, if◌then◌else◌}
use goreminder.Prelude.Int.{ℤ, pos, ltb_ℤ, leb_ℤ}
use goreminder.Errors.{Outcome, ok, err, validation, ◌>>=◌}
use goreminder.Models.{Task}

-- 30 days
abbrev pub max_pre_remind_before_seconds : ℤ
max_pre_remind_before_seconds = pos 2592000

unfoldable pub validate_pre_remind : Option ℤ → Outcome (Unit {0})
validate_pre_remind none = ok tt
validate_pre_remind (some v) =
    if ltb_ℤ v (pos 0)
    then err validation
    else if ltb_ℤ max_pre_remind_before_seconds v
    then err validation
    else ok tt

abbrev is_zero_offset : ℤ → Bool
is_zero_offset v = leb_ℤ v (pos 0) && leb_ℤ (pos 0) v

-- omit = no change; 0 = clear; > 0 = set
unfoldable pub apply_pre_remind_update : Task → Option ℤ → Outcome Task
apply_pre_remind_update task none = ok task
apply_pre_remind_update task (some v) = do
  checked ← validate_pre_remind (some v)
  ok (
      if is_zero_offset v
      then record task { pre_remind_before_seconds = none }
      else record task { pre_remind_before_seconds = some v })

unfoldable pub pre_remind_equal : Option ℤ → Option ℤ → Bool
pre_remind_equal none none = true
pre_remind_equal none (some b) = false
pre_remind_equal (some a) none = false
pre_remind_equal (some a) (some b) = leb_ℤ a b && leb_ℤ b a

-- copies a positive offset to a child task
unfoldable pub clone_pre_remind : Option ℤ → Option ℤ
clone_pre_remind none = none
clone_pre_remind (some v) = if leb_ℤ v (pos 0) then none else some v

-- `task.PreRemindBeforeSeconds = nil` where it is 0, in CreateTask
unfoldable pub clear_zero_offset : Option ℤ → Option ℤ
clear_zero_offset none = none
clear_zero_offset (some v) = if is_zero_offset v then none else some v

-- An offset that a stored row may have: none, or from 1 to 30 days in seconds.
abbrev pub IsOffset : Option ℤ → Type 0
IsOffset none = Unit
IsOffset (some v) = (ltb_ℤ (pos 0) v ≡ true) × (ltb_ℤ max_pre_remind_before_seconds v ≡ false)

pub clear_zero-IsOffset :
    (v : Option ℤ) → validate_pre_remind v ≡ ok tt → IsOffset (clear_zero_offset v)
unfolding validate_pre_remind clear_zero_offset
clear_zero-IsOffset none h = tt
clear_zero-IsOffset (some v) h = ground arith

pub clone-IsOffset : (v : Option ℤ) → IsOffset v → IsOffset (clone_pre_remind v)
unfolding clone_pre_remind
clone-IsOffset none h = tt
clone-IsOffset (some v) h = ground arith

-- A successful partial update changes no other field than the offset, and leaves a valid row
-- valid: a value out of range is refused.
pub apply_pre_remind_update-IsOffset :
    (task updated : Task) (v : Option ℤ)
    → IsOffset task.pre_remind_before_seconds
    → apply_pre_remind_update task v ≡ ok updated
    → IsOffset updated.pre_remind_before_seconds
      × (record updated { pre_remind_before_seconds = task.pre_remind_before_seconds } ≡ task)
unfolding apply_pre_remind_update validate_pre_remind
apply_pre_remind_update-IsOffset task updated none h e = ground arith
apply_pre_remind_update-IsOffset task updated (some v) h e = ground arith
