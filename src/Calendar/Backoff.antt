-- ===== src/Calendar/Backoff.antt =====
-- OutboxBackoff and BindingSyncBackoff of internal/service/calendar_sync_helpers.go.
use goreminder.Prelude.{ℕ, ◌-◌, Option, none, some, List, [], ◌∷◌, get_elem?, leb, if◌then◌else◌}
use goreminder.Prelude.Int.{ℤ, pos, negsuc}
use goreminder.Clock.{minute}

abbrev pub outbox_backoff_steps : List ℕ
outbox_backoff_steps = minute ∷ 300_000_000_000 ∷ 1_800_000_000_000 ∷ 7_200_000_000_000 ∷ []

abbrev or_last : Option ℕ → ℕ
or_last none = 7_200_000_000_000
or_last (some step) = step

-- `attempts` counts from 1; a duration in nanoseconds
unfoldable pub outbox_backoff : ℤ → ℕ
outbox_backoff (negsuc n) = minute
outbox_backoff (pos n) =
    if leb n 0 then minute else or_last (get_elem? outbox_backoff_steps (n - 1))

unfoldable pub binding_sync_backoff : ℤ → ℕ
unfolding outbox_backoff
binding_sync_backoff attempts = outbox_backoff attempts
