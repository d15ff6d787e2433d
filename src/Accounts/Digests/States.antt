-- ===== src/Accounts/Digests/States.antt =====
-- The invariant of the table of digest settings, and the steps that the methods of
-- internal/service/digest_service.go share.
use goreminder.Prelude.{ℕ, ◌+◌, ◌≡◌, ◌≢◌, true, Option, some, List, [], ◌∷◌, arith, All}
use goreminder.Text.{Text}
use goreminder.Errors.{not_found, validation}
use goreminder.Sync.Rows.{find}
use goreminder.Queue.{TaskMessage}
use goreminder.Accounts.World.{AccountEnv, AccountWorld, DigestSettings}
use goreminder.Accounts.World.Triples.{
  Triple, Aside, Keeps, Triple-pure, Triple-err, Triple-if, Triple-service, Keeps-best_effort,
}
use goreminder.Accounts.Table.Rules.{Triple-get_row, Idle}
use goreminder.Accounts.Rows
use goreminder.Accounts.Rows.Digests.{digests_table, is_for, clashes, update_digest_row}
use goreminder.Accounts.Digests
use goreminder.Accounts.Digests.{DigestSettingsUpdateRequest}
use goreminder.Accounts.Digests.Keys.{Pairwise, Below}

-- both times are read by the format of the program
abbrev pub Timed : AccountEnv → DigestSettings → Type 0
Timed e d = (e.parses_time d.weekday_time ≡ true) × (e.parses_time d.weekend_time ≡ true)

-- No two rows have one id, or one user and messenger; the sequence is past the ids; and every row
-- has its times.
abbrev pub IsSound : AccountEnv → AccountWorld → Type 0
IsSound e s =
    Pairwise s.digests.list
    × All (Below s.digests.next_id) s.digests.list
    × All (Timed e) s.digests.list

pub Below-suc : (n : ℕ) (l : List DigestSettings) → All (Below n) l → All (Below (n + 1)) l
Below-suc n [] h = tt
Below-suc n (d ∷ l) h = (omega arith, Below-suc n l h.1)

-- an error of a call is not ErrNotFound, which only the repositories make
abbrev pub NoFalseMiss : AccountEnv → Type 0
NoFalseMiss e = (n : ℕ) → e.base.fault n ≢ some not_found

module _ (e : AccountEnv) where
  pub aside : Aside (IsSound e)
  aside = record { rebased = λ w s h. h }

  pub idle : Idle (IsSound e)
  idle = record { touched = λ s h p f same. h }

  pub valid :
      {P : AccountWorld → Type 0} (time : Text)
      → ((s : AccountWorld) → P s → IsSound e s)
      → Triple P
          (Digests.validate_time_format e time)
          (λ _ s. P s × (e.parses_time time ≡ true))
          (IsSound e)
  unfolding Digests.validate_time_format
  valid time x =
      Triple-if (e.parses_time time) _ _ (λ t. Triple-pure tt (λ s h. (h, t)))
        (λ _. Triple-err validation x)

  pub notify-IsSound : (message : TaskMessage) → Keeps (IsSound e) (Digests.notify e message)
  unfolding Digests.notify
  notify-IsSound message = Keeps-best_effort _ (Triple-service _ aside (λ s h. h))

  pub read :
      (user : ℕ) (messenger : Option ℕ)
      → Triple
          (IsSound e)
          (Rows.Digests.get_digest_settings_by_user_id e user messenger)
          (λ d s. IsSound e s × (find (is_for user messenger) s.digests.list ≡ some d))
          (IsSound e)
  unfolding Rows.Digests.get_digest_settings_by_user_id
  read user messenger = Triple-get_row e aside (λ s h. h) digests_table _
