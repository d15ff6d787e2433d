-- ===== src/Examples/Accounts.antt =====
-- Examples of the services on users, groups, backlogs, targets and digest settings.
use goreminder.Prelude.{
  ◌*◌, ◌≡◌, refl, true, false, ◌&&◌, ◌||◌, none, some, List, [], ◌∷◌, null, arith,
}
use goreminder.Prelude.Int.{pos}
use mathlib.Core.List.{Permᴰ}
use goreminder.Text.{codes, contains, to_lower, text_eq}
use goreminder.Clock.{day}
use goreminder.Accounts.World.{User, TaskGroup, Item, DigestSettings, AccountEnv, AccountWorld}
use goreminder.Accounts.World.Triples.{Triple, Ends}
use goreminder.Accounts.Table.Pages.{read_pages}
use goreminder.Accounts.Listing.{is_listed}
use goreminder.Accounts.Listing.Title.Search.{is_listed-title}
use goreminder.Accounts.Digests.{digest_filter, DigestSettingsUpdateRequest}
use goreminder.Accounts.Digests
use goreminder.Accounts.Digests.States.{IsSound}
use goreminder.Accounts.Digests.Sound.{digests-IsSound}
use goreminder.Accounts.Groups
use goreminder.Accounts.Groups.References.{HasGroups, task_groups-HasGroups}
use goreminder.Accounts.Users
use goreminder.Accounts.Users.{UserUpdateRequest}
use goreminder.Accounts.Users.Limit.{WithinLimit, users-WithinLimit}
use goreminder.Accounts.Items
use goreminder.Accounts.Items.Batch.{Stored, create_backlogs_batch-Stored}
use goreminder.Accounts.Items.Pages.{listed, get_all_backlogs-pages}
use goreminder.Examples.{reminder, env, world}
use goreminder.Examples.Syncs.{binding}

abbrev account_env : AccountEnv
account_env = record {
  base = record (env none) { fault = λ n. none };
  max_users = 2;
  has_bindings = true;
  parses_time = λ s. text_eq s (codes "07:00");
  order_users = λ n o l. l;
  order_messengers = λ n o l. l;
  order_related = λ n o l. l;
  order_groups = λ n o l. l;
  order_items = λ n o l. l;
  order_digests = λ n o l. l;
  order_tasks = λ n o l. l;
  task_created_at = λ id. 10 * day;
  has_provider = λ id s. false;
}

abbrev owner : User
owner = record {
  id = 7;
  name = codes "Ann";
  email = [];
  password_hash = [];
  timezone = none;
  language_code = none;
  role = none;
  last_activity_at = none;
  deleted_at = none;
}

abbrev home : TaskGroup
home = record { id = 4; user_id = 7; name = codes "home"; deleted_at = none }

abbrev milk : Item
milk = record {
  id = 1;
  title = codes "milk";
  description = [];
  user_id = 7;
  messenger_related_user_id = none;
  completed_at = none;
  deleted_at = none;
}

abbrev morning : DigestSettings
morning = record {
  id = 1;
  user_id = 7;
  messenger_related_user_id = none;
  enabled = true;
  weekday_time = codes "07:00";
  weekend_time = codes "07:00";
}

-- one user, with a group that a binding refers to, a backlog and the settings of a digest
abbrev account_world : AccountWorld
account_world = record {
  base = world;
  users = record { list = owner ∷ []; next_id = 8 };
  messengers = record { list = []; next_id = 1 };
  related = record { list = []; next_id = 1 };
  groups = record { list = home ∷ []; next_id = 5 };
  backlogs = record { list = milk ∷ []; next_id = 2 };
  targets = record { list = []; next_id = 1 };
  digests = record { list = morning ∷ []; next_id = 2 };
  bindings = record binding { group_id = some 4 } ∷ [];
  user_purges = [];
}

abbrev no_changes : UserUpdateRequest
no_changes = record {
  name = none;
  email = none;
  password_hash = none;
  timezone = none;
  language_code = none;
  role = none;
}

task_groups-HasGroups_example :
    Ends
      (λ _. HasGroups)
      HasGroups
      (Groups.delete_task_group account_env 4 account_world).0
      (Groups.delete_task_group account_env 4 account_world).1
task_groups-HasGroups_example =
    (task_groups-HasGroups account_env refl home 4 none).2.at account_world
      (λ id r. ground arith, tt)

users-WithinLimit_example :
    Ends
      (λ _. WithinLimit account_env)
      (WithinLimit account_env)
      (Users.create_user account_env owner account_world).0
      (Users.create_user account_env owner account_world).1
unfolding goreminder.Sync.Rows.select
users-WithinLimit_example =
    (users-WithinLimit account_env (omega arith) owner 7 no_changes).0.at account_world
      (omega arith)

digests-IsSound_example :
    Ends
      (λ _. IsSound account_env)
      (IsSound account_env)
      (Digests.create_digest_settings account_env morning account_world).0
      (Digests.create_digest_settings account_env morning account_world).1
digests-IsSound_example =
    (digests-IsSound account_env (λ n q. cc) morning 7 none
        (record {
          enabled = some false;
          weekday_time = none;
          weekend_time = none;
          messenger_related_user_id = none;
        })).0.at
      account_world ((tt, tt), (omega arith, tt), ((refl, refl), tt))

create_backlogs_batch-Stored_example :
    Triple
      (λ s. s.backlogs.list ≡ milk ∷ [])
      (Items.create_backlogs_batch account_env (codes "bread; ; tea") (codes ";") 7 none)
      (Stored account_env 7 none (codes "bread; ; tea") (codes ";") (milk ∷ []))
      (λ s. s.backlogs.list ≡ milk ∷ [])
create_backlogs_batch-Stored_example =
    create_backlogs_batch-Stored account_env 7 none (codes "bread; ; tea") (codes ";") (milk ∷ [])

same_rows : (l : List Item) → Permᴰ l l
same_rows [] = Permᴰ.nil
same_rows (i ∷ l) = Permᴰ.cons refl (same_rows l)

get_all_backlogs-pages_example :
    Triple
      (λ s. s.backlogs.list ≡ milk ∷ [])
      (read_pages (λ k. Items.get_all_backlogs account_env (pos k) (pos 1) [] (some 7) none none) 2)
      (λ l s. (s.backlogs.list ≡ milk ∷ []) × Permᴰ l (listed (some 7) none (milk ∷ [])))
      (λ s. s.backlogs.list ≡ milk ∷ [])
unfolding goreminder.Sync.Rows.select goreminder.Accounts.Table.in_related
get_all_backlogs-pages_example =
    get_all_backlogs-pages account_env 2 1 [] (some 7) none (milk ∷ []) (λ k o l. same_rows l)
      (λ k. refl) (omega arith) (omega arith) (omega arith)

is_listed-title_example :
    is_listed account_env
      (record (digest_filter 7 none none) { title = some (codes "PLANTS") })
      reminder
    ≡ is_listed account_env (record (digest_filter 7 none none) { title = none }) reminder
      && (null (codes "PLANTS") || contains (to_lower reminder.title) (to_lower (codes "PLANTS")))
is_listed-title_example =
    is_listed-title account_env (digest_filter 7 none none) (codes "PLANTS") reminder
