-- ===== src/Accounts/Users/Limit.antt =====
-- The limit of the number of users.
use goreminder.Prelude.{
  ℕ, zero, suc, ◌+◌, ◌≤◌, ◌<◌, ◌≡◌, refl, Bool, not, Option, none, some, List, [], ◌∷◌, ◌++◌,
  length, null, ltb, leb, arith,
}
use goreminder.Text.{Text}
use goreminder.Clock.{Time}
use goreminder.Errors.{Outcome, ok, err, panicked, other, conflict, unprocessable_entity}
use goreminder.Sync.Rows.{select, change}
use goreminder.Models.{Task}
use goreminder.Service.World.{M}
use goreminder.Accounts.World.{AccountEnv, AccountWorld, Accounts, User, service}
use goreminder.Accounts.World.Triples.{
  Triple, Aside, Keeps, Triple-pure, Triple-err, Triple-if, Triple-bind, Triple-weaken, Triple-call,
  Triple-lift, Triple-service, Triple-modify, Triple-gets, Triple-map_err, Keeps-attempt,
  Keeps-best_effort,
}
use goreminder.Accounts.Table.Rules.{
  Triple-time_now, Triple-get_row, Triple-count_rows, Triple-change_rows, Triple-insert_row, Idle,
  Keeps-touch,
}
use goreminder.Accounts.Table.{Table, get_row}
use goreminder.Accounts.Listing.{get_tasks_by_user_id}
use goreminder.Accounts.Rows
use goreminder.Accounts.Rows.Users.{users_table, live_user, is_user, update_user_row, new_user}
use goreminder.Accounts.Users
use goreminder.Accounts.Users.{UserUpdateRequest, apply_request}

-- how many users are not deleted
abbrev pub active : AccountWorld → ℕ
active s = length (select live_user s.users.list)

abbrev pub WithinLimit : AccountEnv → AccountWorld → Type 0
WithinLimit e s = active s ≤ e.max_users

active-same :
    (p : User → Bool) (f : User → User) (l : List User)
    → ((u : User) → (f u).deleted_at ≡ u.deleted_at)
    → length (select live_user (change p f l)) ≡ length (select live_user l)
unfolding select change
active-same p f [] same = refl
active-same p f (u ∷ l) same = ground (arith, active-same p f l same, same u)

active-deleted :
    (id : ℕ) (now : Time) (l : List User)
    → length (select live_user (change (is_user id) (λ u. record u { deleted_at = some now }) l))
      ≤ length (select live_user l)
unfolding select change
active-deleted id now [] = omega arith
active-deleted id now (u ∷ l) = ground (arith, active-deleted id now l)

active-new :
    (u : User) (id : ℕ) (l : List User)
    → length (select live_user (l ++ new_user u id ∷ [])) ≡ length (select live_user l) + 1
unfolding select
active-new u id [] = omega arith
active-new u id (x ∷ l) = ground (arith, active-new u id l)

module _ (e : AccountEnv) where
  aside : Aside (WithinLimit e)
  aside = record { rebased = λ w s h. h }

  idle : Idle (WithinLimit e)
  idle = record { touched = λ s h p f same. ground (arith, active-same p f s.users.list same) }

  abbrev HasRoom : AccountWorld → Type 0
  HasRoom s = active s < e.max_users

  check-HasRoom :
      0 < e.max_users
      → Triple (WithinLimit e) (Users.check_user_limit e) (λ _. HasRoom) (WithinLimit e)
  unfolding Users.check_user_limit Rows.Users.count_active_users
  check-HasRoom limited =
      Triple-if (not (ltb 0 e.max_users)) _ _ (λ off. absurd (ground arith))
        (λ _. Triple-bind _ _ (Triple-count_rows e aside (λ s h. h) users_table live_user) (λ n.
          Triple-if (leb e.max_users n) _ _ (λ _. Triple-err conflict (λ s h. h.0))
            (λ room. Triple-pure tt (λ s h. ground arith))))

  create-WithinLimit : 0 < e.max_users → (u : User) → Keeps (WithinLimit e) (Users.create_user e u)
  unfolding Users.create_user Rows.Users.create_user
  create-WithinLimit limited u =
      Triple-if (null u.name) _ _ (λ _. Triple-err other (λ s h. h))
        (λ _. Triple-bind _ _ (check-HasRoom limited) (λ _.
          Triple-bind {Q = λ _. WithinLimit e} _ _
            (Triple-insert_row e (record { rebased = λ w s h. h }) (λ s h. omega arith) users_table
              (new_user u) (λ s h. omega (arith, active-new u s.users.next_id s.users.list)))
            (λ id. Triple-bind _ _ (Keeps-touch e aside idle id) (λ _. Triple-pure _ (λ s h. h)))))

  update-WithinLimit :
      (id : ℕ) (r : UserUpdateRequest) → Keeps (WithinLimit e) (Users.update_user e id r)
  unfolding Users.update_user Rows.Users.update_user Rows.Users.get_user_by_id
  update-WithinLimit id r =
      Triple-bind _ _
        (Triple-weaken _ (λ s h. h) (λ a s h. h.0)
          (Triple-get_row e aside (λ s h. h) users_table (is_user id)))
        (λ old.
          Triple-bind {Q = λ _. WithinLimit e} _ _
            (Triple-change_rows e aside (λ s h. h) users_table _ _
              (λ s h. ground (
                arith,
                active-same (is_user (apply_request old r).id)
                    (update_user_row (apply_request old r)) s.users.list (λ u. refl),
              )))
            (λ _. Triple-bind _ _ (Keeps-touch e aside idle id) (λ _. Triple-pure _ (λ s h. h))))

  abbrev within_after : {A : Type 0} (m : M A) → Keeps (WithinLimit e) (service m)
  within_after m = Triple-service m aside (λ s h. h)

  abbrev within_read :
      {A : Type 0} (t : Table A) (p : A → Bool) → Keeps (WithinLimit e) (get_row e t p)
  within_read t p =
      Triple-weaken _ (λ s h. h) (λ a s h. h.0) (Triple-get_row e aside (λ s h. h) t p)

  name-WithinLimit : (id : ℕ) → Keeps (WithinLimit e) (Users.get_messenger_name e id)
  unfolding Users.get_messenger_name Rows.Messengers.get_messenger_related_user_by_id
      Rows.Messengers.get_messenger_by_id
  name-WithinLimit id =
      Triple-bind _ _ (within_read Rows.Messengers.related_table _) (λ r. go r.messenger_id)
    where
      go : (id : Option ℕ) → Keeps (WithinLimit e) (Users.name_of e id)
      go none = Triple-err unprocessable_entity (λ s h. h)
      go (some id) =
          Triple-bind _ _ (Triple-map_err _ _ (within_read Rows.Messengers.messengers_table _))
            (λ m. Triple-pure _ (λ s h. h))

  sent-WithinLimit :
      (id : ℕ) (name : Outcome Text) → Keeps (WithinLimit e) (Users.send_removal e id name)
  sent-WithinLimit id (ok name) = within_after _
  sent-WithinLimit id (err x) = Triple-pure tt (λ s h. h)
  sent-WithinLimit id panicked = Triple-lift panicked (λ s h. h)

  job-WithinLimit :
      (task : Task) (related : Option ℕ) → Keeps (WithinLimit e) (Users.remove_job e task related)
  unfolding Users.remove_job
  job-WithinLimit task none = Triple-pure tt (λ s h. h)
  job-WithinLimit task (some related) =
      Triple-bind {Q = λ _. WithinLimit e} _ _ (Keeps-attempt _ (name-WithinLimit related))
        (λ name. sent-WithinLimit task.id name)

  tasks-WithinLimit : (tasks : List Task) → Keeps (WithinLimit e) (Users.delete_tasks e tasks)
  unfolding Users.delete_tasks
  tasks-WithinLimit [] = Triple-pure tt (λ s h. h)
  tasks-WithinLimit (task ∷ tasks) = Triple-bind _ _ (Keeps-best_effort _ (within_after _)) (λ _.
      Triple-bind _ _ (job-WithinLimit task task.messenger_related_user_id)
        (λ _. tasks-WithinLimit tasks))

  attempts-WithinLimit : (n id : ℕ) → Keeps (WithinLimit e) (Users.purge_attempts e n id)
  unfolding Users.purge_attempts Users.purge_user
  attempts-WithinLimit zero id = Triple-pure tt (λ s h. h)
  attempts-WithinLimit (suc n) id =
      Triple-bind {Q = λ _. WithinLimit e} _ _
        (Keeps-attempt _
          (Triple-bind _ _ (Triple-call e aside (λ s h. h)) (λ _. Triple-modify _ (λ s h. h))))
        (λ done. go done (attempts-WithinLimit n id))
    where
      go :
          (done : Outcome (Unit {0})) {rest : Accounts (Unit {0})}
          → Keeps (WithinLimit e) rest
          → Keeps (WithinLimit e) (Users.retry done rest)
      go (ok _) k = Triple-pure tt (λ s h. h)
      go (err x) k = k
      go panicked k = Triple-lift panicked (λ s h. h)

  delete-WithinLimit : (id : ℕ) → Keeps (WithinLimit e) (Users.delete_user e id)
  unfolding Users.delete_user Users.purge_user_attachments Rows.Users.delete_user
      Rows.Users.get_user_by_id Rows.Messengers.delete_messenger_related_user_by_user_id
      get_tasks_by_user_id
  delete-WithinLimit id = Triple-bind _ _ (within_read users_table _) (λ _.
      Triple-bind {Q = λ _. WithinLimit e} _ _
        (Triple-bind _ _ (Triple-call e aside (λ s h. h))
          (λ _. Triple-weaken _ (λ s h. h) (λ a s h. h.0) (Triple-gets _)))
        (λ tasks. Triple-bind _ _ (tasks-WithinLimit tasks) (λ _.
          Triple-bind {Q = λ _. WithinLimit e} _ _
            (Triple-bind _ _ (Triple-time_now e aside (λ s h. h)) (λ now.
              Triple-change_rows e aside (λ s h. h) Rows.Messengers.related_table _ _ (λ s h. h)))
            (λ _.
              Triple-bind {Q = λ _. WithinLimit e} _ _
                (Triple-bind _ _ (Triple-time_now e aside (λ s h. h)) (λ now.
                  Triple-change_rows e aside (λ s h. h) users_table _ _
                    (λ s h. omega (arith, active-deleted id now s.users.list))))
                (λ _.
                  Triple-if e.base.has_attachments _ _ (λ _. attempts-WithinLimit 3 id)
                    (λ _. Triple-pure tt (λ s h. h)))))))

  -- Where there is a limit of users, CreateUser, UpdateUser and DeleteUser keep the number of users
  -- that are not deleted within it, however they end.
  pub users-WithinLimit :
      0 < e.max_users
      → (u : User) (id : ℕ) (r : UserUpdateRequest)
      → Keeps (WithinLimit e) (Users.create_user e u)
        × Keeps (WithinLimit e) (Users.update_user e id r)
        × Keeps (WithinLimit e) (Users.delete_user e id)
  users-WithinLimit limited u id r =
      (create-WithinLimit limited u, update-WithinLimit id r, delete-WithinLimit id)
