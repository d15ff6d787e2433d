-- ===== src/Sync/Export/Asked.antt =====
-- The bindings to which EnqueueExport (internal/service/calendar_sync_service.go) sends a task.
use goreminder.Prelude.{
  ℕ, ◌≡◌, refl, ap, ◌∙◌, Bool-cases, inl, inr, Bool, true, false, not, ◌&&◌, ◌||◌, Option, none,
  some, List, [], ◌∷◌, any, ◌==◌, arith, if◌then◌else◌,
}
use mathlib.Core.Path.{subst}
use goreminder.Errors.{Outcome, ok, err, panicked}
use goreminder.Text.{Text}
use goreminder.Models.{Task}
use goreminder.Calendar.Scope.{binding_allows_task_export}
use goreminder.Sync.World.{
  TaskSyncLink, CalendarBinding, SyncEnv, SyncWorld, pure, lift, attempt, settled, continue, ◌>>=◌,
}
use goreminder.Sync.Rows.{select, get_binding}
use goreminder.Sync.Export.{
  Targets, is_deleted, matches_group, add_key, link_targets, binding_target, binding_targets,
  export_targets, allowed_binding, binding_of, export_binding, binding_of_found,
}

abbrev pub has : ℕ → List ℕ → Bool
has id ids = any (λ i. i == id) ids

-- a binding with this id that may be exported to and has the task in its scope
abbrev pub is_asking : Task → ℕ → CalendarBinding → Bool
is_asking task id b = binding_allows_task_export b.direction && matches_group task b && (b.id == id)

-- the link asks to remove the event: the task left the group, or is deleted
abbrev link_deletes : Task → Text → Option (TaskSyncLink × CalendarBinding) → ℕ → Bool
link_deletes task action none id = false
link_deletes task action (some (link, b)) id =
    (is_deleted action || (not (matches_group task b) && not link.export_opt_in)) && (b.id == id)

abbrev link_upserts : Task → Text → Option (TaskSyncLink × CalendarBinding) → ℕ → Bool
link_upserts task action none id = false
link_upserts task action (some (link, b)) id =
    not (is_deleted action || (not (matches_group task b) && not link.export_opt_in))
    && (b.id == id)

eq_sound : (a b : ℕ) → (a == b) ≡ true → a ≡ b
eq_sound a b h = ground arith

has-same : (k id : ℕ) (ids : List ℕ) → (k == id) ≡ true → has k ids ≡ has id ids
has-same k id ids h = ap (λ n. has n ids) (eq_sound k id h)

has-add_key : (k id : ℕ) (ids : List ℕ) → has id (add_key k ids) ≡ ((k == id) || has id ids)
has-add_key k id ids = elim (Bool-cases (has k ids)) [
  | inl there ↦ elim (Bool-cases (k == id)) [
    | inl same ↦ let moved = has-same k id ids same in ground arith
    | inr differs ↦ ground arith
  ]
  | inr absent ↦ ground arith
]

has-select : (p : ℕ → Bool) (id : ℕ) (ids : List ℕ) → has id (select p ids) ≡ (p id && has id ids)
unfolding select
has-select p id [] = ground arith
has-select p id (i ∷ ids) =
    let rest = has-select p id ids in
    elim (Bool-cases (i == id)) [
      | inl same ↦ let moved = ap p (eq_sound i id same) in ground arith
      | inr differs ↦ ground arith
    ]

-- one binding more
asked_too : (d a r t : Bool) → ((d && r) || ((d && a) || t)) ≡ ((d && (a || r)) || t)
asked_too true true true t = refl
asked_too true true false t = refl
asked_too true false r t = refl
asked_too false a r t = refl

module _ (task : Task) (action : Text) (id : ℕ) where
  binding-deletes :
      (b : CalendarBinding) (t : Targets)
      → has id (binding_target task action b t).deletes
        ≡ ((is_deleted action && is_asking task id b) || has id t.deletes)
  binding-deletes b t = let added = has-add_key b.id id t.deletes in ground arith

  binding-upserts :
      (b : CalendarBinding) (t : Targets)
      → has id (binding_target task action b t).upserts
        ≡ ((not (is_deleted action) && is_asking task id b) || has id t.upserts)
  binding-upserts b t = let added = has-add_key b.id id t.upserts in ground arith

  bindings-deletes :
      (bindings : List CalendarBinding) (t : Targets)
      → has id (binding_targets task action bindings t).deletes
        ≡ ((is_deleted action && any (is_asking task id) bindings) || has id t.deletes)
  unfolding binding_targets
  bindings-deletes [] t = ground arith
  bindings-deletes (b ∷ bindings) t =
      let rest = bindings-deletes bindings (binding_target task action b t) in
      let first = binding-deletes b t in
      let moved =
        asked_too (is_deleted action) (is_asking task id b) (any (is_asking task id) bindings)
          (has id t.deletes) in
      rest ∙ ap (λ y. (is_deleted action && any (is_asking task id) bindings) || y) first ∙ moved

  bindings-upserts :
      (bindings : List CalendarBinding) (t : Targets)
      → has id (binding_targets task action bindings t).upserts
        ≡ ((not (is_deleted action) && any (is_asking task id) bindings) || has id t.upserts)
  unfolding binding_targets
  bindings-upserts [] t = ground arith
  bindings-upserts (b ∷ bindings) t =
      let rest = bindings-upserts bindings (binding_target task action b t) in
      let first = binding-upserts b t in
      let moved =
        asked_too (not (is_deleted action)) (is_asking task id b) (any (is_asking task id) bindings)
          (has id t.upserts) in
      rest
      ∙ ap (λ y. (not (is_deleted action) && any (is_asking task id) bindings) || y) first
      ∙ moved

  link-deletes :
      (linked : Option (TaskSyncLink × CalendarBinding))
      → has id (link_targets task action linked).deletes ≡ link_deletes task action linked id
  unfolding link_targets
  link-deletes none = refl
  link-deletes (some (link, b)) = ground arith

  link-upserts :
      (linked : Option (TaskSyncLink × CalendarBinding))
      → has id (link_targets task action linked).upserts ≡ link_upserts task action linked id
  unfolding link_targets
  link-upserts none = refl
  link-upserts (some (link, b)) = ground arith

-- What a link asks of the binding that is read for it: `p` counts only where the link is enabled and
-- the binding is there and may be exported to.
abbrev pub read_asks :
    (TaskSyncLink → CalendarBinding → Bool) → TaskSyncLink → Outcome CalendarBinding → Bool
read_asks p link (ok b) = binding_allows_task_export b.direction && p link b
read_asks p link (err x) = false
read_asks p link panicked = false

abbrev pub id_asks :
    (TaskSyncLink → CalendarBinding → Bool)
    → (ℕ → Outcome CalendarBinding)
    → TaskSyncLink
    → Option ℕ
    → Bool
id_asks p read link none = false
id_asks p read link (some id) = read_asks p link (read id)

abbrev pub found_asks :
    (TaskSyncLink → CalendarBinding → Bool)
    → (ℕ → Outcome CalendarBinding)
    → Outcome TaskSyncLink
    → Bool
found_asks p read (ok link) = link.sync_enabled && id_asks p read link link.calendar_binding_id
found_asks p read (err x) = false
found_asks p read panicked = false

-- the task is deleted, or it left the group of the binding and did not opt in
abbrev pub is_leaving : Task → Text → TaskSyncLink → CalendarBinding → Bool
is_leaving task action link b =
    is_deleted action || (not (matches_group task b) && not link.export_opt_in)

abbrev of_linked :
    (TaskSyncLink → CalendarBinding → Bool) → Option (TaskSyncLink × CalendarBinding) → Bool
of_linked p none = false
of_linked p (some (link, b)) = p link b

abbrev Linked :
    (TaskSyncLink → CalendarBinding → Bool)
    → Bool
    → Outcome (Option (TaskSyncLink × CalendarBinding))
    → Type 0
Linked p asks (ok linked) = of_linked p linked ≡ asks
Linked p asks (err x) = Unit
Linked p asks panicked = Unit

module _ (e : SyncEnv) (s : SyncWorld) (p : TaskSyncLink → CalendarBinding → Bool) where
  abbrev reads : ℕ → Outcome CalendarBinding
  reads id = (get_binding e id s).0

  allowed-Linked :
      (link : TaskSyncLink) (r : Outcome CalendarBinding) (s' : SyncWorld)
      → Linked p
          (read_asks p link r)
          (continue (settled r s').0 (λ o. pure (allowed_binding link o)) (settled r s').1).0
  unfolding pure
  allowed-Linked link (err x) s' = refl
  allowed-Linked link panicked s' = tt
  allowed-Linked link (ok b) s' = elim (Bool-cases (binding_allows_task_export b.direction)) [
    | inl y ↦ rw y refl
    | inr n ↦ rw n refl
  ]

  binding_of-Linked :
      (link : TaskSyncLink) (o : Option ℕ)
      → Linked p (id_asks p reads link o) (binding_of e link o s).0
  unfolding binding_of attempt ◌>>=◌ pure
  binding_of-Linked link none = refl
  binding_of-Linked link (some id) =
      allowed-Linked link (get_binding e id s).0 (get_binding e id s).1

  enabled-Linked :
      (enabled : Bool) (link : TaskSyncLink) (o : Option ℕ)
      → Linked p
          (enabled && id_asks p reads link o)
          ((if enabled then binding_of e link o else pure none) s).0
  unfolding pure
  enabled-Linked true link o = binding_of-Linked link o
  enabled-Linked false link o = refl

  binding_of_found-Linked :
      (found : Outcome TaskSyncLink)
      → Linked p (found_asks p reads found) (binding_of_found e found s).0
  unfolding binding_of_found export_binding pure lift
  binding_of_found-Linked (err x) = refl
  binding_of_found-Linked panicked = tt
  binding_of_found-Linked (ok link) = enabled-Linked link.sync_enabled link link.calendar_binding_id

  found_asks-linked :
      (found : Outcome TaskSyncLink) (linked : Option (TaskSyncLink × CalendarBinding))
      → (binding_of_found e found s).0 ≡ ok linked
      → of_linked p linked ≡ found_asks p reads found
  found_asks-linked found linked h =
      subst (Linked p (found_asks p reads found)) h (binding_of_found-Linked found)

link_deletes-of_linked :
    (task : Task) (action : Text) (linked : Option (TaskSyncLink × CalendarBinding)) (id : ℕ)
    → link_deletes task action linked id
      ≡ of_linked (λ link b. is_leaving task action link b && (b.id == id)) linked
link_deletes-of_linked task action none id = refl
link_deletes-of_linked task action (some (link, b)) id = refl

link_upserts-of_linked :
    (task : Task) (action : Text) (linked : Option (TaskSyncLink × CalendarBinding)) (id : ℕ)
    → link_upserts task action linked id
      ≡ of_linked (λ link b. not (is_leaving task action link b) && (b.id == id)) linked
link_upserts-of_linked task action none id = refl
link_upserts-of_linked task action (some (link, b)) id = refl

-- The bindings that EnqueueExport chooses are those that ask, for the link that it found, the
-- binding that it read for that link, and the bindings of the user. One gets a delete if the task
-- is deleted and in the scope of the binding, or if the link leaves it: the task is deleted, or
-- left the group of the binding and did not opt in. One gets an upsert if it gets no delete and the
-- task is not deleted and in its scope, or the link stays with it. A link counts only if it is
-- enabled and its binding can be read, and a binding, the link's too, only if its direction allows
-- exports.
pub export_targets-asked :
    (e : SyncEnv) (s : SyncWorld) (task : Task) (action : Text) (found : Outcome TaskSyncLink)
    (linked : Option (TaskSyncLink × CalendarBinding)) (bindings : List CalendarBinding) (id : ℕ)
    → (binding_of_found e found s).0 ≡ ok linked
    → let t = export_targets task action linked bindings in
      let in_scope = any (is_asking task id) bindings in
      let reads = λ (k : ℕ). (get_binding e k s).0 in
      let leaves = found_asks (λ l b. is_leaving task action l b && (b.id == id)) reads found in
      let stays =
        found_asks (λ l b. not (is_leaving task action l b) && (b.id == id)) reads found in
      let deleted = (is_deleted action && in_scope) || leaves in
      (has id t.deletes ≡ deleted)
      × (has id t.upserts ≡ (not deleted && ((not (is_deleted action) && in_scope) || stays)))
unfolding export_targets
export_targets-asked e s task action found linked bindings id h =
    let t = binding_targets task action bindings (link_targets task action linked) in
    let deletes = bindings-deletes task action id bindings (link_targets task action linked) in
    let upserts = bindings-upserts task action id bindings (link_targets task action linked) in
    let from_link =
      link-deletes task action id linked
      ∙ link_deletes-of_linked task action linked id
      ∙ found_asks-linked e s _ found linked h in
    let from_link' =
      link-upserts task action id linked
      ∙ link_upserts-of_linked task action linked id
      ∙ found_asks-linked e s _ found linked h in
    let chosen = has-select (λ i. not (has i t.deletes)) id t.upserts in (cc, cc)
