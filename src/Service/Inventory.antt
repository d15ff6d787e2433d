-- ===== src/Service/Inventory.antt =====
-- internal/service/task_service.go: GetSchedulableInventory and the history of attachments, with
-- the query of internal/repository/task_repository.go.
use goreminder.Prelude.{
  ℕ, zero, suc, Bool, false, not, ◌&&◌, ◌||◌, Option, none, some, is_some, List, [], ◌∷◌, ◌++◌,
  null, leb, if◌then◌else◌,
}
use goreminder.Prelude.Int.{ℤ, pos, negsuc}
use goreminder.Text.{Text, codes}
use goreminder.Clock.{Time, before, second}
use goreminder.Models.{Task, status_scheduled, status_rescheduled, status_postponed}
use goreminder.Sync.Event.{wrapped, add_duration}
use goreminder.Service.World.{
  Env, Value, number, text, M, pure, gets, outside, time_now, ◌>>=◌, ◌>>◌,
}
use goreminder.Service.Repository.{is_live, has_status, filter}
use goreminder.Service.Publish.{touch_user_activity}
use goreminder.Service.Effects.{record_history}

pub record SchedulableInventoryItem : Type 0 where
  pub task_id : ℕ
  pub messenger : Text
  pub start_date : Time
  pub kind : Text
  pub has_pre : Bool
  pub title : Text

-- the WHERE of the query, at an instant
unfoldable pub is_schedulable : Time → Task → Bool
is_schedulable now t =
    let recurs : Bool = is_some t.cron_expression || is_some t.rrule in
    is_live t
    && not t.muted
    && (has_status t status_scheduled
        || has_status t status_rescheduled
        || has_status t status_postponed)
    && is_some t.messenger_related_user_id
    && not (t.requires_confirmation && not (is_some t.parent_id) && recurs)
    && (recurs || leb now t.start_date || not t.requires_confirmation && not recurs)

abbrev is_given : Option Text → Bool
is_given none = false
is_given (some s) = not (null s)

unfoldable pub kind_of : Task → Text
kind_of t =
    if is_some t.parent_id
    then codes "recurring_instance"
    else if is_given t.cron_expression || is_given t.rrule
    then codes "recurring"
    else codes "one_shot"

-- StartDate.Add(-time.Duration(n) * time.Second) is not before now
abbrev still_ahead : Time → Time → Option ℤ → Bool
still_ahead now start none = false
still_ahead now start (some (negsuc n)) = false
still_ahead now start (some (pos zero)) = false
still_ahead now start (some (pos (suc n))) =
    not (before (add_duration start (wrapped (negsuc n) second)) now)

abbrev pub item_of : Time → Text → Task → SchedulableInventoryItem
item_of now messenger t = record {
  task_id = t.id;
  messenger = messenger;
  start_date = t.start_date;
  kind = kind_of t;
  has_pre = still_ahead now t.start_date t.pre_remind_before_seconds;
  title = t.title;
}

pub record AttachmentHistoryMeta : Type 0 where
  pub attachment_id : Text
  pub original_name : Text
  pub content_type : Text
  pub size_bytes : ℤ

abbrev text_entry : Text → Text → List (Text × Value)
text_entry key s = if null s then [] else (key, text s) ∷ []

abbrev size_entry : ℤ → List (Text × Value)
size_entry (pos zero) = []
size_entry (pos (suc n)) = (codes "size_bytes", number (suc n)) ∷ []
size_entry (negsuc n) = []

unfoldable pub attachment_history_value : AttachmentHistoryMeta → List (Text × Value)
attachment_history_value m =
    (codes "attachment_id", text m.attachment_id)
    ∷ (text_entry (codes "original_name") m.original_name
        ++ (text_entry (codes "content_type") m.content_type ++ size_entry m.size_bytes))

-- `joined` is the INNER JOIN with user_messengers and messengers, whose deleted rows it has too: the
-- name of the messenger of a row of user_messengers.
module _ (e : Env) (joined : ℕ → Option Text) where
  abbrev messenger_of : Option ℕ → Option Text
  messenger_of none = none
  messenger_of (some id) = joined id

  abbrev with_item :
      Time → Task → Option Text → List SchedulableInventoryItem → List SchedulableInventoryItem
  with_item now t none items = items
  with_item now t (some name) items = item_of now name t ∷ items

  unfoldable pub items_of : Time → List Task → List SchedulableInventoryItem
  items_of now [] = []
  items_of now (t ∷ tasks) =
      with_item now t (messenger_of t.messenger_related_user_id) (items_of now tasks)

  -- the rows stand in the order of their ids
  unfoldable pub get_schedulable_inventory : M (List SchedulableInventoryItem)
  get_schedulable_inventory = do
    asked ← time_now e
    outside e
    rows ← gets (λ w. filter (is_schedulable asked) w.tasks)
    now ← time_now e
    pure (items_of now rows)

module _ (e : Env) where
  unfoldable pub record_attachment_history :
      ℕ → ℕ → Text → List (Text × Value) → List (Text × Value) → M (Unit {0})
  record_attachment_history task user action old new = do
    record_history e (record {
      task_id = task;
      user_id = user;
      action = action;
      old_value = old;
      new_value = new;
    })
    touch_user_activity e user

  unfoldable pub record_attachment_added : ℕ → ℕ → AttachmentHistoryMeta → M (Unit {0})
  record_attachment_added task user m =
      record_attachment_history task user (codes "attachment_added") [] (attachment_history_value m)

  unfoldable pub record_attachment_removed : ℕ → ℕ → AttachmentHistoryMeta → M (Unit {0})
  record_attachment_removed task user m =
      record_attachment_history task user (codes "attachment_removed") (attachment_history_value m)
        []
