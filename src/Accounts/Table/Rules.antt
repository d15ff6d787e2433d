-- ===== src/Accounts/Table/Rules.antt =====
-- Triples for the statements of Accounts/Table.antt and for the shared checks of the services.
use goreminder.Prelude.{
  ℕ, ◌+◌, ◌≡◌, refl, sym, ap, Bool, Option, none, some, List, [], ◌∷◌, ◌++◌, any, length, ltb,
  Bool-cases, Option-cases, inl, inr,
}
use mathlib.Core.Path.{subst}
use goreminder.Errors.{not_found}
use goreminder.Clock.{Time}
use goreminder.Service.World.{outside, tick}
use goreminder.Sync.Rows.{find, select, change}
use goreminder.Accounts.World.{
  AccountEnv, AccountWorld, User, with_base, pure, gets, modify, call, time_now, best_effort,
  attempt, service, ◌>>=◌,
}
use goreminder.Accounts.World.Triples.{
  Triple, Aside, Keeps, Triple-pure, Triple-err, Triple-service, Triple-gets, Triple-or_not_found,
  Triple-map_err, Triple-if, Triple-modify, Triple-bind, Triple-weaken, Triple-call,
}
use goreminder.Accounts.Table.{Table, insert_row, get_row, change_rows, delete_rows, count_rows}
use goreminder.Accounts.Rows
use goreminder.Accounts.Lookups.{
  touch_user_activity, require_user, require_related_user, check_related_user,
}

-- the table with other rows
abbrev pub with_list : {A : Type 0} → Table A → AccountWorld → List A → AccountWorld
with_list t s l = t.store (record (t.rows s) { list = l }) s

abbrev pub with_new : {A : Type 0} → Table A → AccountWorld → (ℕ → A) → AccountWorld
with_new t s make =
    t.store
      (record {
        list = (t.rows s).list ++ make (t.rows s).next_id ∷ [];
        next_id = (t.rows s).next_id + 1;
      })
      s

module _ {P E : AccountWorld → Type 0} (e : AccountEnv) (b : Aside P)
    (x : (s : AccountWorld) → P s → E s) where
  pub Triple-time_now : Triple P (time_now e) (λ _. P) E
  unfolding time_now
  Triple-time_now = Triple-service _ b x

  module _ {A : Type 0} (t : Table A) where
    pub Triple-get_row :
        (p : A → Bool) → Triple P (get_row e t p) (λ a s. P s × (find p (t.rows s).list ≡ some a)) E
    unfolding get_row
    Triple-get_row p = Triple-bind _ _ (Triple-call e b x) (λ _.
        Triple-bind _ _ (Triple-gets t.rows) (λ rows.
          Triple-weaken _ (λ s h. h)
            (λ a s h. (h.0.0, subst (λ r. find p r.list ≡ some a) h.0.1 h.1))
            (Triple-or_not_found (find p rows.list) (λ s h. x s h.0))))

    pub Triple-count_rows :
        (p : A → Bool)
        → Triple P (count_rows e t p) (λ n s. P s × (n ≡ length (select p (t.rows s).list))) E
    unfolding count_rows
    Triple-count_rows p = Triple-bind _ _ (Triple-call e b x) (λ _.
        Triple-bind _ _ (Triple-gets t.rows)
          (λ rows. Triple-pure _ (λ s h. (h.0, ap (λ r. length (select p r.list)) h.1))))

    pub Triple-change_rows :
        {Q : AccountWorld → Type 0} (p : A → Bool) (f : A → A)
        → ((s : AccountWorld) → P s → Q (with_list t s (change p f (t.rows s).list)))
        → Triple P (change_rows e t p f) (λ _. Q) E
    unfolding change_rows
    Triple-change_rows {Q} p f k = Triple-bind _ _ (Triple-call e b x) (λ _.
        Triple-bind _ _ (Triple-gets t.rows) (λ rows. Triple-modify _ (λ s h.
          subst (λ r. Q (t.store (record r { list = change p f r.list }) s)) (sym h.1) (k s h.0))))

    pub Triple-insert_row :
        {Q : ℕ → AccountWorld → Type 0} (make : ℕ → A)
        → ((s : AccountWorld) → P s → Q (t.rows s).next_id (with_new t s make))
        → Triple P (insert_row e t make) Q E
    unfolding insert_row
    Triple-insert_row {Q} make k = Triple-bind _ _ (Triple-call e b x) (λ _.
        Triple-bind _ _ (Triple-gets t.rows) (λ rows.
          Triple-bind {Q = λ _ s. Q rows.next_id s} _ _
            (Triple-modify _ (λ s h.
              subst
                (λ r. Q r.next_id (
                  t.store (record { list = r.list ++ make r.next_id ∷ []; next_id = r.next_id + 1 })
                    s))
                (sym h.1) (k s h.0)))
            (λ _. Triple-pure _ (λ s h. h))))

-- what the deletion of rows keeps
module _ {P E : AccountWorld → Type 0} (e : AccountEnv) (b : Aside P)
    (x : (s : AccountWorld) → P s → E s) {A : Type 0} (t : Table A) where
  pub Triple-delete_rows :
      (p : A → Bool) (f : Time → A → A)
      → ((s : AccountWorld)
          → P s
          → (now : Time) → P (with_list t s (change p (f now) (t.rows s).list)))
      → Triple P (delete_rows e t p f) (λ _. P) E
  unfolding delete_rows
  Triple-delete_rows p f k = Triple-bind _ _ (Triple-time_now e b x) (λ now.
      Triple-bind _ _ (Triple-call e b x) (λ _. Triple-bind _ _ (Triple-gets t.rows) (λ rows.
        Triple-bind {Q = λ _. P} _ _
          (Triple-modify _ (λ s h.
            subst (λ r. P (t.store (record r { list = change p (f now) r.list }) s)) (sym h.1)
              (k s h.0 now)))
          (λ _.
            Triple-if (any p rows.list) _ _ (λ _. Triple-pure tt (λ s h. h))
              (λ _. Triple-err not_found x)))))

-- P does not look at the activity of users.
pub record Idle (P : AccountWorld → Type 0) : Type 0 where
  pub touched :
      (s : AccountWorld)
      → P s
      → (p : User → Bool) (f : User → User) → ((u : User) → (f u).deleted_at ≡ u.deleted_at)
      → P (with_list Rows.Users.users_table s (change p f s.users.list))

module _ {P : AccountWorld → Type 0} (e : AccountEnv) (b : Aside P) where
  -- it is done on a best-effort basis, so it does not fail
  pub Triple-touch :
      {E : AccountWorld → Type 0}
      → Idle P
      → (user : ℕ) → Triple P (touch_user_activity e user) (λ _. P) E
  unfolding touch_user_activity Rows.Users.touch_last_activity best_effort attempt change_rows
      time_now call service outside goreminder.Service.World.time_now ◌>>=◌ gets modify pure
  Triple-touch i user = record {
    at = λ s h. elim (Bool-cases (ltb 0 user)) [
      | inl on ↦
          let after : AccountWorld = with_base s (tick (tick s.base)) in
          let kept : P after = b.rebased (tick (tick s.base)) s h in
          elim (Option-cases (e.base.fault (s.base.calls + 1))) [
            | inl f ↦ rw (on, f) (i.touched after kept _ _ (λ u. refl))
            | inr (x, f) ↦ rw (on, f) kept
          ]
      | inr off ↦ rw off h
    ];
  }

  pub Keeps-touch : Idle P → (user : ℕ) → Keeps P (touch_user_activity e user)
  Keeps-touch i user = Triple-touch i user

  pub Keeps-require_user : (user : ℕ) → Keeps P (require_user e user)
  unfolding require_user Rows.Users.get_user_by_id
  Keeps-require_user user = Triple-map_err _ _ (
      Triple-weaken _ (λ s h. h) (λ a s h. h.0)
        (Triple-get_row e b (λ s h. h) Rows.Users.users_table _))

  pub Keeps-require_related_user : (id : ℕ) → Keeps P (require_related_user e id)
  unfolding require_related_user Rows.Messengers.get_messenger_related_user_by_id
  Keeps-require_related_user id = Triple-map_err _ _ (
      Triple-weaken _ (λ s h. h) (λ a s h. h.0)
        (Triple-get_row e b (λ s h. h) Rows.Messengers.related_table _))

  pub Keeps-check_related_user : (id : Option ℕ) → Keeps P (check_related_user e id)
  unfolding check_related_user
  Keeps-check_related_user none = Triple-pure tt (λ s h. h)
  Keeps-check_related_user (some id) =
      Triple-bind _ _ (Keeps-require_related_user id) (λ _. Triple-pure tt (λ s h. h))
