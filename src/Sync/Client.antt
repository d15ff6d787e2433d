-- ===== src/Sync/Client.antt =====
-- internal/service/calendar_sync_service.go: the client of an account, and the calls of Google.
use goreminder.Prelude.{ℕ, Option, none, some, is_some, [], ◌∷◌, ◌++◌, if◌then◌else◌}
use goreminder.Text.{Text}
use goreminder.Errors.{Err, unprocessable_entity, other}
use goreminder.Sync.World.{
  GoogleAccount, RemoteCall, create_event, patch_event, delete_event, SyncEnv, Sync, pure, raise,
  modify, call, or_not_found, ◌>>=◌, ◌>>◌,
}
use goreminder.Sync.Event.{Event}

abbrev pub or_other : {A : Type 0} → Option A → Sync A
or_other none = raise other
or_other (some a) = pure a

abbrev pub created_client : Option Err → Sync (Unit {0})
created_client none = pure tt
created_client (some x) = raise x

abbrev sent : RemoteCall → Sync (Unit {0})
sent c = modify (λ s. record s { remote = s.remote ++ c ∷ [] })

module _ (e : SyncEnv) where
  -- clientForAccount: both tokens are decrypted
  unfoldable pub client_for_account : GoogleAccount → Sync (Unit {0})
  client_for_account account = do
    access ← or_other (e.decrypt account.access_token_enc)
    refresh ← or_other (e.decrypt account.refresh_token_enc)
    created_client (e.new_client access refresh)

  -- clientForAccountID; what the client then does is in the calls below
  unfoldable pub client_for_account_id : ℕ → Sync (Unit {0})
  client_for_account_id id = do
    call e
    account ← or_not_found (e.accounts id)
    (if is_some account.revoked_at then raise unprocessable_entity else client_for_account account)

  unfoldable pub remote_create : Text → Event → Sync Event
  remote_create calendar ev = do n ← call e; sent (create_event calendar ev); or_other (e.created n)

  unfoldable pub remote_patch : Text → Text → Event → Sync Event
  remote_patch calendar id ev = do
    n ← call e
    sent (patch_event calendar id ev)
    or_other (e.patched n)

  -- the text of the error, if there is one
  unfoldable pub remote_delete : Text → Text → Sync (Option Text)
  remote_delete calendar id = do n ← call e; sent (delete_event calendar id); pure (e.deleted n)
