-- ===== src/Accounts/Digests/Created.antt =====
-- The proof for CreateDigestSettings of internal/service/digest_service.go.
use goreminder.Prelude.{
  ℕ, ◌+◌, ◌≡◌, refl, ap, ◌∙◌, inl, inr, Option, none, [], ◌∷◌, any, arith, All-append, Option-cases,
}
use goreminder.Errors.{
  Outcome, ok, err, panicked, not_found, validation, unprocessable_entity, conflict, not_shiftable,
  other,
}
use goreminder.Sync.Rows.{find}
use goreminder.Service.World.{outside}
use goreminder.Accounts.World.{
  AccountEnv, AccountWorld, DigestSettings, pure, lift, service, gets, attempt, call, or_not_found,
  ◌>>=◌,
}
use goreminder.Accounts.World.Triples.{
  Triple, Keeps, Triple-pure, Triple-err, Triple-gets, Triple-if, Triple-bind, Triple-weaken,
  Triple-call, Triple-noting, Triple-fails, Keeps-attempt,
}
use goreminder.Accounts.Table.{get_row, insert_unique}
use goreminder.Accounts.Table.Rules.{
  with_new, Triple-get_row, Triple-insert_row, Keeps-touch, Keeps-require_user,
  Keeps-check_related_user,
}
use goreminder.Accounts.Rows
use goreminder.Accounts.Rows.Digests.{digests_table, is_for, clashes, update_digest_row}
use goreminder.Accounts.Digests
use goreminder.Accounts.Digests.{DigestSettingsUpdateRequest}
use goreminder.Accounts.Digests.Keys.{Below, new-Pairwise}
use goreminder.Accounts.Digests.States.{
  Timed, IsSound, NoFalseMiss, Below-suc, aside, idle, valid, notify-IsSound,
}

module _ (e : AccountEnv) where
  -- a lookup that found nothing, as its error says
  absent_row :
      (user : ℕ) (messenger : Option ℕ)
      → NoFalseMiss e
      → (s : AccountWorld)
      → (attempt (Rows.Digests.get_digest_settings_by_user_id e user messenger) s).0
        ≡ ok (err not_found)
      → find
          (is_for user messenger)
          (attempt (Rows.Digests.get_digest_settings_by_user_id e user messenger) s).1.digests.list
        ≡ none
  unfolding Rows.Digests.get_digest_settings_by_user_id attempt get_row call service outside ◌>>=◌
      gets or_not_found pure lift
  absent_row user messenger honest s q = elim (Option-cases (e.base.fault s.base.calls)) [
    | inl f ↦ elim (Option-cases (find (is_for user messenger) s.digests.list)) [
      | inl g ↦ rw f (rw g g)
      | inr (d, g) ↦ absurd (ground arith)
    ]
    | inr (x, f) ↦ absurd (ground (arith, honest s.base.calls))
  ]

  -- after a lookup that found no settings
  abbrev Absent : DigestSettings → AccountWorld → Type 0
  Absent d s =
      IsSound e s
      × Timed e d
      × (find (is_for d.user_id d.messenger_related_user_id) s.digests.list ≡ none)

  abbrev Looked : DigestSettings → Outcome DigestSettings → AccountWorld → Type 0
  Looked d o s =
      (IsSound e s × Timed e d)
      × (o ≡ err not_found
          → find (is_for d.user_id d.messenger_related_user_id) s.digests.list ≡ none)

  check-Absent :
      (d : DigestSettings) (o : Outcome DigestSettings)
      → Triple (Looked d o) (Digests.check_absent e o) (λ _. Absent d) (IsSound e)
  check-Absent d (ok a) = Triple-err unprocessable_entity (λ s h. h.0.0)
  check-Absent d (err not_found) = Triple-pure tt (λ s h. (h.0.0, h.0.1, h.1 refl))
  check-Absent d (err validation) = Triple-err validation (λ s h. h.0.0)
  check-Absent d (err unprocessable_entity) = Triple-err unprocessable_entity (λ s h. h.0.0)
  check-Absent d (err conflict) = Triple-err conflict (λ s h. h.0.0)
  check-Absent d (err not_shiftable) = Triple-err not_shiftable (λ s h. h.0.0)
  check-Absent d (err other) = Triple-err other (λ s h. h.0.0)
  check-Absent d panicked = unfold lift in record { at = λ s h. h.0.0 }

  looked :
      (d : DigestSettings)
      → NoFalseMiss e
      → Triple
          (λ s. IsSound e s × Timed e d)
          (attempt
            (Rows.Digests.get_digest_settings_by_user_id e d.user_id d.messenger_related_user_id))
          (Looked d)
          (IsSound e)
  unfolding Rows.Digests.get_digest_settings_by_user_id
  looked d honest =
      Triple-noting _
        (Triple-fails _ (λ s h. h.0)
          (Keeps-attempt _ (
            Triple-weaken _ (λ s h. h) (λ a s h. h.0)
              (Triple-get_row e (record { rebased = λ w s h. h }) (λ s h. h) digests_table _))))
        (λ s o q n.
          absent_row d.user_id d.messenger_related_user_id honest s (q ∙ ap (λ o. ok o) n))

  inserted :
      (d : DigestSettings) (s : AccountWorld)
      → Absent d s
      → IsSound e (with_new digests_table s (λ id. record d { id = id }))
  inserted d s ((keys, ids, times), timed, none_there) =
      let new : DigestSettings = record d { id = s.digests.next_id } in
      (
        new-Pairwise new s.digests.list keys ids none_there,
        All-append (Below (s.digests.next_id + 1)) s.digests.list (new ∷ [])
            (Below-suc s.digests.next_id s.digests.list ids) (omega arith, tt),
        All-append (Timed e) s.digests.list (new ∷ []) times (timed, tt),
      )

  insert-IsSound :
      (d : DigestSettings)
      → Triple (Absent d) (Rows.Digests.create_digest_settings e d) (λ _. IsSound e) (IsSound e)
  unfolding Rows.Digests.create_digest_settings insert_unique
  insert-IsSound d = Triple-bind _ _ (Triple-gets (λ s. s.digests)) (λ rows.
      Triple-if (any (clashes d.user_id d.messenger_related_user_id) rows.list) _ _
        (λ _.
          Triple-bind _ _ (Triple-call e (record { rebased = λ w s h. h }) (λ s h. h.0.0))
            (λ _. Triple-err other (λ s h. h.0.0)))
        (λ _.
          Triple-insert_row e (record { rebased = λ w s h. h }) (λ s h. h.0.0) digests_table _
            (λ s h. inserted d s h.0)))

  pub create-IsSound :
      NoFalseMiss e → (d : DigestSettings) → Keeps (IsSound e) (Digests.create_digest_settings e d)
  unfolding Digests.create_digest_settings
  create-IsSound honest d = Triple-bind _ _ (Keeps-require_user e (aside e) d.user_id) (λ _.
      Triple-bind _ _ (Keeps-check_related_user e (aside e) d.messenger_related_user_id) (λ _.
        Triple-bind _ _ (valid e d.weekday_time (λ s h. h)) (λ _.
          Triple-bind {Q = λ _ s. IsSound e s × Timed e d} _ _
            (Triple-weaken _ (λ s h. h) (λ _ s h. (h.0.0, (h.0.1, h.1)))
              (valid e d.weekend_time (λ s h. h.0)))
            (λ _. Triple-bind {Q = Looked d} _ _ (looked d honest) (λ o.
              Triple-bind _ _ (check-Absent d o) (λ _. Triple-bind _ _ (insert-IsSound d) (λ id.
                Triple-bind _ _ (notify-IsSound e _) (λ _.
                  Triple-bind _ _ (Keeps-touch e (aside e) (idle e) d.user_id)
                    (λ _. Triple-pure _ (λ s h. h))))))))))
