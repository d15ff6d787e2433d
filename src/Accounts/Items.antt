-- ===== src/Accounts/Items.antt =====
-- internal/service/backlog_service.go and target_service.go
pub mod Batch
pub mod Pages
use goreminder.Prelude.{ℕ, Bool, Option, none, some, List, [], ◌∷◌, ◌++◌, null, if◌then◌else◌}
use goreminder.Prelude.Int.{ℤ}
use goreminder.Text.{Text, trim_space, split_by}
use goreminder.Errors.{Outcome, ok, err, panicked, validation, unprocessable_entity}
use goreminder.Clock.{Time}
use goreminder.Accounts.World.{AccountEnv, Accounts, Item, pure, raise, lift, attempt, ◌>>=◌, ◌>>◌}
use goreminder.Accounts.Rows
use goreminder.Accounts.Lookups.{
  touch_user_activity, require_user, check_related_user, by_messenger_user,
}

-- BacklogUpdateRequest and TargetUpdateRequest
pub record ItemUpdateRequest : Type 0 where
  pub title : Option Text
  pub description : Option Text
  pub completed_at : Option Time

abbrev titled : Item → Option Text → Accounts Item
titled i none = pure i
titled i (some title) = if null title then raise validation else pure (record i { title = title })

abbrev described : Option Text → Item → Item
described none i = i
described (some text) i = record i { description = text }

abbrev completed : Option Time → Item → Item
completed none i = i
completed (some at) i = record i { completed_at = some at }

unfoldable pub apply_request : Item → ItemUpdateRequest → Accounts Item
apply_request i r = do
  named ← titled i r.title
  pure (completed r.completed_at (described r.description named))

-- the row of a line of CreateBacklogsBatch
abbrev pub backlog_of : Text → ℕ → Option ℕ → Item
backlog_of line user related = record {
  id = 0;
  title = line;
  description = [];
  user_id = user;
  messenger_related_user_id = related;
  completed_at = none;
  deleted_at = none;
}

abbrev pub created : Outcome ℕ → List ℕ → Accounts (List ℕ)
created (ok id) ids = pure (id ∷ ids)
created (err x) ids = pure ids
created panicked ids = lift panicked

abbrev pub separator_or_newline : Text → Text
separator_or_newline separator = if null separator then 10 ∷ [] else separator

module _ (e : AccountEnv) where
  unfoldable pub create_backlog : Item → Accounts ℕ
  create_backlog i = do
    require_user e i.user_id
    check_related_user e i.messenger_related_user_id
    id ← Rows.Items.create_backlog e i
    touch_user_activity e i.user_id
    pure id

  -- the loop of CreateBacklogsBatch: an empty line is skipped, and so is one whose insert fails
  unfoldable pub create_lines : ℕ → Option ℕ → List Text → Accounts (List ℕ)
  create_lines user related [] = pure []
  create_lines user related (line ∷ lines) =
      let rest = create_lines user related lines in
      let title = trim_space line in
      if null title then rest else do
        made ← attempt (Rows.Items.create_backlog e (backlog_of title user related))
        ids ← rest
        created made ids

  unfoldable pub create_backlogs_batch : Text → Text → ℕ → Option ℕ → Accounts (List ℕ)
  create_backlogs_batch items separator user related = do
    require_user e user
    check_related_user e related
    ids ← create_lines user related (split_by (separator_or_newline separator) items)
    (if null ids then raise unprocessable_entity else do touch_user_activity e user; pure ids)

  unfoldable pub get_all_backlogs :
      ℤ → ℤ → Text → Option ℕ → Option Bool → Option Text → Accounts (List Item × ℕ)
  get_all_backlogs page size order_by user completed messenger_user =
      by_messenger_user e user messenger_user ([], 0)
        (λ ids. Rows.Items.get_all_backlogs e page size order_by user completed ids)

  unfoldable pub update_backlog : ℕ → ItemUpdateRequest → Accounts Item
  update_backlog id request = do
    old ← Rows.Items.get_backlog_by_id e id
    new ← apply_request old request
    Rows.Items.update_backlog e new
    touch_user_activity e new.user_id
    pure new

  unfoldable pub delete_backlog : ℕ → Accounts (Unit {0})
  delete_backlog id = do
    old ← Rows.Items.get_backlog_by_id e id
    Rows.Items.delete_backlog e id
    touch_user_activity e old.user_id

  unfoldable pub create_target : Item → Accounts ℕ
  create_target i = do
    require_user e i.user_id
    check_related_user e i.messenger_related_user_id
    id ← Rows.Items.create_target e i
    touch_user_activity e i.user_id
    pure id

  unfoldable pub get_all_targets : ℤ → ℤ → Text → Option ℕ → Option Text → Accounts (List Item × ℕ)
  get_all_targets page size order_by user messenger_user =
      by_messenger_user e user messenger_user ([], 0)
        (λ ids. Rows.Items.get_all_targets e page size order_by user ids)

  unfoldable pub update_target : ℕ → ItemUpdateRequest → Accounts Item
  update_target id request = do
    old ← Rows.Items.get_target_by_id e id
    new ← apply_request old request
    Rows.Items.update_target e new
    touch_user_activity e new.user_id
    pure new

  unfoldable pub delete_target : ℕ → Accounts (Unit {0})
  delete_target id = do
    old ← Rows.Items.get_target_by_id e id
    Rows.Items.delete_target e id
    touch_user_activity e old.user_id
