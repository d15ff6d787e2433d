-- ===== src/Accounts/Digests/Updated.antt =====
-- The proof for UpdateDigestSettings of internal/service/digest_service.go.
use goreminder.Prelude.{
  ℕ, ◌≡◌, refl, sym, inl, inr, Bool, false, not, ◌&&◌, Option, none, some, any, ◌==◌,
}
use mathlib.Core.Path.{subst}
use goreminder.Text.{Text}
use goreminder.Errors.{other}
use goreminder.Sync.Rows.{find, change}
use goreminder.Accounts.World.{
  AccountEnv, AccountWorld, Accounts, DigestSettings, pure, lift, raise, service, gets, attempt,
  call, or_not_found, ◌>>=◌, ◌>>◌,
}
use goreminder.Accounts.World.Triples.{
  Triple, Keeps, Triple-pure, Triple-err, Triple-gets, Triple-if, Triple-modify, Triple-bind,
  Triple-weaken, Triple-call, Triple-fails,
}
use goreminder.Accounts.Table.Rules.{Keeps-touch, Keeps-require_related_user}
use goreminder.Accounts.Rows
use goreminder.Accounts.Rows.Digests.{digests_table, is_for, clashes, update_digest_row}
use goreminder.Accounts.Digests
use goreminder.Accounts.Digests.{DigestSettingsUpdateRequest}
use goreminder.Accounts.Digests.Keys.{Below, From, update-Pairwise, find-All, change-All}
use goreminder.Accounts.Digests.States.{Timed, IsSound, aside, idle, valid, notify-IsSound, read}

module _ (e : AccountEnv) where
  -- between the read of the row `old` and the update by `new`
  abbrev Changing : ℕ → Option ℕ → DigestSettings → DigestSettings → AccountWorld → Type 0
  Changing user messenger old new s =
      IsSound e s
      × (find (is_for user messenger) s.digests.list ≡ some old)
      × From old new
      × Timed e new

  abbrev is_taken : DigestSettings → DigestSettings → Bool
  is_taken new x = not (x.id == new.id) && clashes new.user_id new.messenger_related_user_id x

  abbrev with_update :
      DigestSettings → AccountWorld → goreminder.Accounts.World.Rows DigestSettings → AccountWorld
  with_update new s r = record s {
    digests = record r { list = change (λ x. x.id == new.id) (update_digest_row new) r.list };
  }

  updated :
      (user : ℕ) (messenger : Option ℕ) (old new : DigestSettings) (s : AccountWorld)
      → Changing user messenger old new s
      → any (is_taken new) s.digests.list ≡ false
      → IsSound e (with_update new s s.digests)
  updated user messenger old new s ((keys, ids, times), found, from, timed) free = (
    update-Pairwise new user messenger old s.digests.list keys found from free,
    change-All (Below s.digests.next_id) _ _ s.digests.list (λ x b. b) ids,
    change-All (Timed e) _ _ s.digests.list (λ x t. timed) times,
  )

  stored :
      (user : ℕ) (messenger : Option ℕ) (old new : DigestSettings)
      → Triple
          (Changing user messenger old new)
          (Rows.Digests.update_digest_settings e new)
          (λ _. IsSound e)
          (IsSound e)
  unfolding Rows.Digests.update_digest_settings
  stored user messenger old new =
      Triple-bind _ _ (Triple-call e (record { rebased = λ w s h. h }) (λ s h. h.0)) (λ _.
        Triple-bind _ _ (Triple-gets (λ s. s.digests)) (λ rows.
          Triple-if (any (is_taken new) rows.list) _ _ (λ _. Triple-err other (λ s h. h.0.0))
            (λ free. Triple-modify _ (λ s h.
              subst (λ r. any (is_taken new) r.list ≡ false → IsSound e (with_update new s r))
                (sym h.1) (updated user messenger old new s h.0) free))))

  module _ (user : ℕ) (messenger : Option ℕ) (old : DigestSettings) where
    -- the steps that make the row `new` of the row `old`
    abbrev Step : DigestSettings → Accounts DigestSettings → Type 0
    Step d m = Triple (Changing user messenger old d) m (Changing user messenger old) (IsSound e)

    enabled-Changing :
        (b : Option Bool) (s : AccountWorld)
        → IsSound e s × (find (is_for user messenger) s.digests.list ≡ some old)
        → Changing user messenger old (Digests.with_enabled e b old) s
    enabled-Changing none s (h, f) =
        (h, f, (refl, refl, inl refl), find-All (Timed e) _ s.digests.list old h.2 f)
    enabled-Changing (some b) s (h, f) =
        (h, f, (refl, refl, inl refl), find-All (Timed e) _ s.digests.list old h.2 f)

    weekday-Step : (o : Option Text) (d : DigestSettings) → Step d (Digests.with_weekday e o d)
    unfolding Digests.with_weekday
    weekday-Step none d = Triple-pure d (λ s h. h)
    weekday-Step (some time) d =
        Triple-bind _ _ (valid e time (λ s h. h.0))
          (λ _. Triple-pure _ (λ s h. (h.0.0, h.0.1, h.0.2, (h.1, h.0.3.1))))

    weekend-Step : (o : Option Text) (d : DigestSettings) → Step d (Digests.with_weekend e o d)
    unfolding Digests.with_weekend
    weekend-Step none d = Triple-pure d (λ s h. h)
    weekend-Step (some time) d =
        Triple-bind _ _ (valid e time (λ s h. h.0))
          (λ _. Triple-pure _ (λ s h. (h.0.0, h.0.1, h.0.2, (h.0.3.0, h.1))))

    messenger-Step : (o : Option ℕ) (d : DigestSettings) → Step d (Digests.with_messenger e o d)
    unfolding Digests.with_messenger
    messenger-Step none d = Triple-pure d (λ s h. h)
    messenger-Step (some id) d =
        Triple-bind {Q = λ _. Changing user messenger old d} _ _
          (Triple-fails _ (λ s h. h.0)
            (Keeps-require_related_user e (record { rebased = λ w s h. h }) id))
          (λ _. Triple-pure _ (λ s h. (h.0, h.1, (h.2.0, h.2.1, inr refl), h.3)))

  pub update-IsSound :
      (user : ℕ) (messenger : Option ℕ) (r : DigestSettingsUpdateRequest)
      → Keeps (IsSound e) (Digests.update_digest_settings e user messenger r)
  unfolding Digests.update_digest_settings
  update-IsSound user messenger r = Triple-bind _ _ (read e user messenger) (λ old.
      Triple-bind _ _
        (Triple-weaken _ (enabled-Changing user messenger old r.enabled) (λ _ s h. h)
          (weekday-Step user messenger old r.weekday_time _))
        (λ a. Triple-bind _ _ (weekend-Step user messenger old r.weekend_time a) (λ b.
          Triple-bind _ _ (messenger-Step user messenger old r.messenger_related_user_id b) (λ new.
            Triple-bind _ _ (stored user messenger old new) (λ _.
              Triple-bind _ _ (notify-IsSound e _) (λ _.
                Triple-bind _ _ (Keeps-touch e (aside e) (idle e) user)
                  (λ _. Triple-pure _ (λ s h. h))))))))
