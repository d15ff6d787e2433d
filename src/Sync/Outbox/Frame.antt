-- ===== src/Sync/Outbox/Frame.antt =====
-- What the export of one outbox item (internal/service/calendar_sync_service.go) leaves alone.
use goreminder.Prelude.{
  ℕ, ◌≡◌, true, not, Option, none, some, is_some, List, ltb, leb, ◌==◌, ◌&&◌, arith,
}
use goreminder.Text.{Text}
use goreminder.Errors.{Err, Outcome, ok, err, panicked, not_found, other}
use goreminder.Clock.{Time}
use goreminder.Models.{Task}
use goreminder.Calendar.Scope.{should_export_task, binding_allows_task_export}
use goreminder.Service.World.{World, outside, gets, pure, raise, ◌>>=◌}
use goreminder.Service.Repository.{get_task_any_status, or_not_found}
use goreminder.Sync.Event.{Event}
use goreminder.Sync.World.{
  GoogleAccount, TaskSyncLink, CalendarBinding, OutboxKind, export_upsert, export_delete,
  other_kind, OutboxPayload, SyncOutbox, SyncEnv, SyncWorld, with_base, RemoteCall, call,
}
use goreminder.Sync.World.Rules.{returned, Aside}
use goreminder.Sync.World.Sound.{
  Sound, Sound-pure, Sound-lift, Sound-raise, Sound-gets, Sound-or_not_found, Sound-best_effort,
  Sound-if, Sound-service, Sound-modify, Sound-bind, Sound-then, Sound-attempt, Sound-call,
  Sound-time_now, sound_rules,
}
use goreminder.Sync.Rows.{
  violates_new, violates_changed, create_link, get_link_by_task_id, update_link, delete_link,
  get_binding,
}
use goreminder.Sync.Client.{
  or_other, created_client, client_for_account, client_for_account_id, remote_create, remote_patch,
  remote_delete,
}
use goreminder.Sync.Outbox.{
  is_placed, is_missing_text, patch_placed, push, optional_link, push_live, run_upsert,
  account_of_binding, account_of_payload, delete_answer, delete_linked, delete_optional, run_delete,
  run_kind, process_payload, process_outbox_item,
}

-- P looks at the outbox only.
pub record OutboxOnly (P : SyncWorld → Type 0) : Type 0 where
  pub rebased : (w : World) (s : SyncWorld) → P s → P (with_base s w)
  pub linked :
      (l : List TaskSyncLink) (n : ℕ) (s : SyncWorld)
      → P s
      → P (record s { links = l; next_link_id = n })
  pub called : (r : List RemoteCall) (s : SyncWorld) → P s → P (record s { remote = r })

task-returned :
    (e : SyncEnv) (id : ℕ) (w : World) → returned (get_task_any_status e.base id w).0 ≡ true
unfolding get_task_any_status or_not_found ◌>>=◌ outside gets pure raise
task-returned e id w = ground arith

module _ (e : SyncEnv) {P : SyncWorld → Type 0} (o : OutboxOnly P) where
  pub aside : Aside P
  aside = record { rebased = o.rebased }

  called-Sound : Sound P (call e)
  called-Sound = Sound-call e aside

  link_lookup-Sound : (id : ℕ) → Sound P (get_link_by_task_id e id)
  unfolding get_link_by_task_id
  link_lookup-Sound id = Sound-then _ _ called-Sound (search (sound_rules))

  binding_lookup-Sound : (id : ℕ) → Sound P (get_binding e id)
  unfolding get_binding
  binding_lookup-Sound id = Sound-then _ _ called-Sound (search (sound_rules))

  create_link-Sound : (l : TaskSyncLink) → Sound P (create_link e l)
  unfolding create_link
  create_link-Sound l = Sound-then _ _ called-Sound (
      Sound-bind _ _ (Sound-gets _) λ links. Sound-bind _ _ (Sound-gets _) λ tasks.
        Sound-bind _ _ (Sound-gets _) λ id.
          Sound-if (violates_new l links tasks) _ _ (λ _. Sound-raise _)
            (λ _. Sound-then _ _ (Sound-modify _ (λ s h. o.linked _ _ s h)) (Sound-pure id)))

  update_link-Sound : (l : TaskSyncLink) → Sound P (update_link e l)
  unfolding update_link
  update_link-Sound l = Sound-then _ _ called-Sound (
      Sound-bind _ _ (Sound-gets _) λ links. Sound-bind _ _ (Sound-or_not_found _) λ row.
        Sound-if (violates_changed l row links) _ _ (λ _. Sound-raise _)
          (λ _. Sound-modify _ (λ s h. o.linked _ _ s h)))

  delete_link-Sound : (id : ℕ) → Sound P (delete_link e id)
  unfolding delete_link
  delete_link-Sound id = Sound-then _ _ called-Sound (
      Sound-bind _ _ (Sound-gets _)
        λ links. Sound-then _ _ (Sound-or_not_found _) (Sound-modify _ (λ s h. o.linked _ _ s h)))

  or_other-Sound : {A : Type 0} (a : Option A) → Sound P (or_other a)
  or_other-Sound none = Sound-raise other
  or_other-Sound (some a) = Sound-pure a

  created_client-Sound : (x : Option Err) → Sound P (created_client x)
  created_client-Sound none = Sound-pure tt
  created_client-Sound (some x) = Sound-raise x

  client_for_account-Sound : (a : GoogleAccount) → Sound P (client_for_account e a)
  unfolding client_for_account
  client_for_account-Sound a =
      Sound-bind _ _ (or_other-Sound _)
        λ access. Sound-bind _ _ (or_other-Sound _) (λ refresh. created_client-Sound _)

  client-Sound : (id : ℕ) → Sound P (client_for_account_id e id)
  unfolding client_for_account_id
  client-Sound id = Sound-then _ _ called-Sound (
      Sound-bind _ _ (Sound-or_not_found _) λ a.
        Sound-if (is_some a.revoked_at) _ _ (λ _. Sound-raise _) (λ _. client_for_account-Sound a))

  remote_create-Sound : (c : Text) (ev : Event) → Sound P (remote_create e c ev)
  unfolding remote_create
  remote_create-Sound c ev =
      Sound-bind _ _ called-Sound
        λ n. Sound-then _ _ (Sound-modify _ (λ s h. o.called _ s h)) (or_other-Sound _)

  remote_patch-Sound : (c id : Text) (ev : Event) → Sound P (remote_patch e c id ev)
  unfolding remote_patch
  remote_patch-Sound c id ev =
      Sound-bind _ _ called-Sound
        λ n. Sound-then _ _ (Sound-modify _ (λ s h. o.called _ s h)) (or_other-Sound _)

  remote_delete-Sound : (c id : Text) → Sound P (remote_delete e c id)
  unfolding remote_delete
  remote_delete-Sound c id =
      Sound-bind _ _ called-Sound
        λ n. Sound-then _ _ (Sound-modify _ (λ s h. o.called _ s h)) (Sound-pure _)

  optional_link-Sound : (r : Outcome TaskSyncLink) → returned r ≡ true → Sound P (optional_link e r)
  unfolding optional_link
  optional_link-Sound (ok link) h = Sound-pure _
  optional_link-Sound (err not_found) h = Sound-pure none
  optional_link-Sound (err x) h = Sound-raise _
  optional_link-Sound panicked h = Sound-lift panicked h

  patch_placed-Sound :
      (b : CalendarBinding) (l : TaskSyncLink) (ev : Event) (now : Time)
      → Sound P (patch_placed e b l ev now)
  unfolding patch_placed
  patch_placed-Sound b l ev now =
      Sound-bind _ _ (remote_patch-Sound _ _ ev) (λ updated. update_link-Sound _)

  push-Sound :
      (t : Task) (b : CalendarBinding) (l : Option TaskSyncLink) (ev : Event) (now : Time)
      → Sound P (push e t b l ev now)
  unfolding push
  push-Sound t b none ev now =
      Sound-bind _ _ (remote_create-Sound _ ev)
        λ created. Sound-then _ _ (create_link-Sound _) (Sound-pure tt)
  push-Sound t b (some l) ev now =
      Sound-if (is_placed b l) _ _ (λ _. patch_placed-Sound b l ev now)
        (λ _. Sound-bind _ _ (remote_create-Sound _ ev) (λ created. update_link-Sound _))

  push_live-Sound : (t : Task) (b : CalendarBinding) → Sound P (push_live e t b)
  unfolding push_live
  push_live-Sound t b = Sound-then _ _ (client-Sound _) (
      Sound-attempt _ _ (link_lookup-Sound _) λ found back.
        Sound-bind _ _ (optional_link-Sound found back)
          λ link. Sound-bind _ _ (Sound-time_now e aside) (λ now. push-Sound t b link _ now))

  run_upsert-Sound : (x : OutboxPayload) → Sound P (run_upsert e x)
  unfolding run_upsert
  run_upsert-Sound x = Sound-bind _ _ (Sound-service _ aside (task-returned e x.task_id)) λ t.
      Sound-if (not (should_export_task (some t))) _ _ (λ _. Sound-pure tt)
        λ _. Sound-bind _ _ (binding_lookup-Sound _) λ b.
          Sound-if (not (binding_allows_task_export b.direction)) _ _ (λ _. Sound-pure tt)
            (λ _. push_live-Sound t b)

  account_of_binding-Sound : (id : Option ℕ) → Sound P (account_of_binding e id)
  unfolding account_of_binding
  account_of_binding-Sound none = Sound-pure 0
  account_of_binding-Sound (some id) =
      Sound-attempt _ _ (binding_lookup-Sound id) (λ found back. Sound-pure _)

  account_of_payload-Sound : (x : OutboxPayload) (n : ℕ) → Sound P (account_of_payload e x n)
  unfolding account_of_payload
  account_of_payload-Sound x n =
      Sound-if (n == 0 && ltb 0 x.binding_id) _ _
        (λ _. account_of_binding-Sound (some x.binding_id)) (λ _. Sound-pure n)

  delete_answer-Sound : (s : Option Text) → Sound P (delete_answer e s)
  unfolding delete_answer
  delete_answer-Sound none = Sound-pure tt
  delete_answer-Sound (some s) =
      Sound-if (is_missing_text s) _ _ (λ _. Sound-pure tt) (λ _. Sound-raise other)

  delete_linked-Sound : (x : OutboxPayload) (l : TaskSyncLink) → Sound P (delete_linked e x l)
  unfolding delete_linked
  delete_linked-Sound x l = Sound-bind _ _ (account_of_binding-Sound _) λ own.
      Sound-bind _ _ (account_of_payload-Sound x own) λ account.
        Sound-if (account == 0) _ _ (λ _. Sound-best_effort _ (delete_link-Sound _))
          λ _. Sound-then _ _ (client-Sound account) (
            Sound-bind _ _ (remote_delete-Sound _ _)
              λ answer. Sound-then _ _ (delete_answer-Sound answer) (delete_link-Sound _))

  delete_optional-Sound :
      (x : OutboxPayload) (l : Option TaskSyncLink) → Sound P (delete_optional e x l)
  unfolding delete_optional
  delete_optional-Sound x none = Sound-pure tt
  delete_optional-Sound x (some l) = delete_linked-Sound x l

  run_delete-Sound : (x : OutboxPayload) → Sound P (run_delete e x)
  unfolding run_delete
  run_delete-Sound x =
      Sound-if (leb x.task_id 0) _ _ (λ _. Sound-pure tt)
        λ _.
          Sound-attempt _ _ (link_lookup-Sound _)
            λ found back. Sound-bind _ _ (optional_link-Sound found back) (delete_optional-Sound x)

  run_kind-Sound : (k : OutboxKind) (x : OutboxPayload) → Sound P (run_kind e k x)
  unfolding run_kind
  run_kind-Sound export_upsert x = run_upsert-Sound x
  run_kind-Sound export_delete x = run_delete-Sound x
  run_kind-Sound other_kind x = Sound-raise other

  process_payload-Sound :
      (k : OutboxKind) (x : Option OutboxPayload) → Sound P (process_payload e k x)
  unfolding process_payload
  process_payload-Sound k none = Sound-raise other
  process_payload-Sound k (some x) = run_kind-Sound k x

  pub process_outbox_item-Sound : (i : SyncOutbox) → Sound P (process_outbox_item e i)
  unfolding process_outbox_item
  process_outbox_item-Sound i = process_payload-Sound i.kind i.payload
