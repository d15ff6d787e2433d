-- ===== src/Accounts/Digests/Sound.antt =====
-- The methods of internal/service/digest_service.go and the invariant of their table.
use goreminder.Prelude.{ℕ, sym, not, Option, any}
use mathlib.Core.Path.{subst}
use goreminder.Errors.{not_found}
use goreminder.Sync.Rows.{select}
use goreminder.Accounts.World.{AccountEnv, DigestSettings}
use goreminder.Accounts.World.Triples.{
  Keeps, Triple-pure, Triple-err, Triple-gets, Triple-if, Triple-modify, Triple-bind, Triple-weaken,
  Triple-call,
}
use goreminder.Accounts.Table.Rules.{Keeps-touch}
use goreminder.Accounts.Rows
use goreminder.Accounts.Rows.Digests.{digests_table, is_for, clashes, update_digest_row}
use goreminder.Accounts.Digests
use goreminder.Accounts.Digests.{DigestSettingsUpdateRequest}
use goreminder.Accounts.Digests.Keys.{Below, select-Pairwise, select-All}
use goreminder.Accounts.Digests.States.{
  Timed, IsSound, NoFalseMiss, aside, idle, notify-IsSound, read,
}
use goreminder.Accounts.Digests.Created.{create-IsSound}
use goreminder.Accounts.Digests.Updated.{update-IsSound}

module _ (e : AccountEnv) where
  removed :
      (user : ℕ) (messenger : Option ℕ)
      → Keeps (IsSound e) (Rows.Digests.delete_digest_settings e user messenger)
  unfolding Rows.Digests.delete_digest_settings
  removed user messenger = Triple-bind _ _ (Triple-call e (aside e) (λ s h. h)) (λ _.
      Triple-bind _ _ (Triple-gets (λ s. s.digests)) (λ rows.
        Triple-bind {Q = λ _. IsSound e} _ _
          (Triple-modify _ (λ s h.
            subst
              (λ r. IsSound e (record s {
                digests = record r { list = select (λ d. not (is_for user messenger d)) r.list };
              }))
              (sym h.1)
              (
                select-Pairwise _ s.digests.list h.0.0,
                select-All (Below s.digests.next_id) _ s.digests.list h.0.1,
                select-All (Timed e) _ s.digests.list h.0.2,
              )))
          (λ _.
            Triple-if (any (is_for user messenger) rows.list) _ _ (λ _. Triple-pure tt (λ s h. h))
              (λ _. Triple-err not_found (λ s h. h)))))

  delete-IsSound :
      (user : ℕ) (messenger : Option ℕ)
      → Keeps (IsSound e) (Digests.delete_digest_settings e user messenger)
  unfolding Digests.delete_digest_settings
  delete-IsSound user messenger =
      Triple-bind {Q = λ _. IsSound e} _ _
        (Triple-weaken _ (λ s h. h) (λ _ s h. h.0) (read e user messenger))
        (λ old.
          Triple-bind {Q = λ _. IsSound e} _ _ (removed user messenger) (λ _.
            Triple-bind _ _ (notify-IsSound e _) (λ _. Keeps-touch e (aside e) (idle e) user)))

  -- The three methods of the digest service keep the table sound, however they end, where an error of a
  -- call is never ErrNotFound: no two rows have one user and messenger, also where there is no
  -- messenger, which the constraint of the table does not see, and every row has valid times.
  pub digests-IsSound :
      NoFalseMiss e
      → (d : DigestSettings) (user : ℕ) (messenger : Option ℕ) (r : DigestSettingsUpdateRequest)
      → Keeps (IsSound e) (Digests.create_digest_settings e d)
        × Keeps (IsSound e) (Digests.update_digest_settings e user messenger r)
        × Keeps (IsSound e) (Digests.delete_digest_settings e user messenger)
  digests-IsSound honest d user messenger r =
      (create-IsSound e honest d, update-IsSound e user messenger r, delete-IsSound user messenger)
