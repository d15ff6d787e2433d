-- ===== src/Sync/Ics/Counts.antt =====
-- The answer of the import of a file (internal/service/ics_import_service.go), event by event.
use goreminder.Prelude.{
  ℕ, ◌+◌, suc, ◌≡◌, refl, Option, some, List, [], ◌∷◌, map, length, length-append, arith,
}
use goreminder.Errors.{Outcome, ok, err, panicked}
use goreminder.Models.{Task}
use goreminder.Service.World.{
  World, M, pure, lift, attempt, settle, best_effort, ignore, ◌>>=◌, continue,
}
use goreminder.Sync.World.{SyncEnv}
use goreminder.Sync.Ics.{
  VEvent, Calendar, IcsEvent, Parsed, mapped, broken, ParseError, ParseResult, DateLayouts,
  add_parsed, parse_events, parse,
}
use goreminder.Sync.Ics.Import.{
  IcsImportOptions, IcsImportResult, item_error, add_error, add_id, check_options, after_created,
  import_mapped, import_event, import_parsed_events, import_parsed, import_read, import_ics,
}

-- one id or error for each of `n` events, and the number of the to-do entries
abbrev pub Counts : ℕ → ℕ → IcsImportResult → Type 0
Counts n todos r = (length r.created_task_ids + length r.errors ≡ n) × (r.skipped_todo ≡ todos)

-- no error; a panic is one of a library
abbrev pub Answers : {A : Type 0} → (A → Type 0) → Outcome A → Type 0
Answers P (ok a) = P a
Answers P (err x) = ⊥
Answers P panicked = Unit

-- From every state `m` answers with a value in `Q`.
record Responds {A : Type 0} (m : M A) (Q : A → Type 0) : Type 0 where
  at : (w : World) → Answers Q (m w).0

settle-Answers : {A : Type 0} (r : Outcome A) (w : World) → Answers (λ _. Unit {0}) (settle r w).0
settle-Answers (ok a) w = tt
settle-Answers (err x) w = tt
settle-Answers panicked w = tt

ignore-Answers : {A : Type 0} (r : Outcome A) (w : World) → Answers (λ _. Unit {0}) (ignore r w).0
ignore-Answers (ok a) w = tt
ignore-Answers (err x) w = tt
ignore-Answers panicked w = tt

module _ {A : Type 0} where
  Responds-lift : (Q : A → Type 0) (r : Outcome A) → Answers Q r → Responds (lift r) Q
  unfolding lift
  Responds-lift Q r h = record { at = λ w. h }

  Responds-pure : {Q : A → Type 0} (a : A) → Q a → Responds (pure a) Q
  unfolding pure
  Responds-pure a h = record { at = λ w. h }

  Responds-attempt : (m : M A) → Responds (attempt m) (λ _. Unit {0})
  unfolding attempt
  Responds-attempt m = record { at = λ w. settle-Answers (m w).0 (m w).1 }

  Responds-best_effort : (m : M A) → Responds (best_effort m) (λ _. Unit {0})
  unfolding best_effort
  Responds-best_effort m = record { at = λ w. ignore-Answers (m w).0 (m w).1 }

module _ {A B : Type 0} (Q : A → Type 0) (R : B → Type 0) where
  continue-Answers :
      (r : Outcome A) (f : A → M B) (w : World)
      → Answers Q r
      → ((a : A) → Q a → Responds (f a) R)
      → Answers R (continue r f w).0
  continue-Answers (ok a) f w h k = (k a h).at w
  continue-Answers (err x) f w h k = absurd h
  continue-Answers panicked f w h k = tt

module _ {A B : Type 0} {Q : A → Type 0} {R : B → Type 0} where
  Responds-bind :
      (m : M A) (f : A → M B)
      → Responds m Q
      → ((a : A) → Q a → Responds (f a) R)
      → Responds (m >>= f) R
  unfolding ◌>>=◌
  Responds-bind m f h k = record { at = λ w. continue-Answers Q R (m w).0 f (m w).1 (h.at w) k }

module _ (todos : ℕ) where
  add_error-Counts :
      (n i : ℕ) (ev : IcsEvent) (r : IcsImportResult)
      → Counts n todos r
      → Counts (suc n) todos (add_error i ev r)
  add_error-Counts n i ev r (same, skipped) =
      (rw (length-append r.errors (record { index = i; uid = ev.uid } ∷ [])) (omega arith), skipped)

  add_id-Counts :
      (n id : ℕ) (r : IcsImportResult) → Counts n todos r → Counts (suc n) todos (add_id id r)
  add_id-Counts n id r (same, skipped) =
      (rw (length-append r.created_task_ids (id ∷ [])) (omega arith), skipped)

module _ (e : SyncEnv) (lib : DateLayouts) (group_owner : ℕ → Option ℕ)
    (opts : IcsImportOptions) where
  module _ (todos n i : ℕ) (ev : IcsEvent) (r : IcsImportResult) (counted : Counts n todos r) where
    after_created-Responds :
        (task : Task) (o : Outcome (ℕ × ℕ))
        → Responds (after_created e lib group_owner opts i ev task r o) (Counts (suc n) todos)
    unfolding after_created
    after_created-Responds task (ok (id, child)) =
        Responds-bind _ _ (Responds-best_effort _)
          (λ _ _. Responds-pure _ (add_id-Counts todos n id r counted))
    after_created-Responds task (err x) = Responds-pure _ (add_error-Counts todos n i ev r counted)
    after_created-Responds task panicked = Responds-lift _ panicked tt

    import_mapped-Responds :
        (o : Outcome Task)
        → Responds (import_mapped e lib group_owner opts i ev r o) (Counts (suc n) todos)
    unfolding import_mapped
    import_mapped-Responds (ok task) =
        Responds-bind _ _ (Responds-attempt _) (λ o _. after_created-Responds task o)
    import_mapped-Responds (err x) = Responds-pure _ (add_error-Counts todos n i ev r counted)
    import_mapped-Responds panicked = Responds-lift _ panicked tt

    import_event-Responds :
        Responds (import_event e lib group_owner opts i ev r) (Counts (suc n) todos)
    unfolding import_event
    import_event-Responds = Responds-bind _ _ (Responds-attempt _) (λ o _. import_mapped-Responds o)

  import_parsed_events-Responds :
      (todos total n i : ℕ) (evs : List IcsEvent) (r : IcsImportResult)
      → n + length evs ≡ total
      → Counts n todos r
      → Responds (import_parsed_events e lib group_owner opts i evs r) (Counts total todos)
  unfolding import_parsed_events
  import_parsed_events-Responds todos total n i [] r left h = Responds-pure r (omega arith, h.1)
  import_parsed_events-Responds todos total n i (ev ∷ evs) r left h =
      Responds-bind _ _ (import_event-Responds todos n i ev r h)
        (λ next. import_parsed_events-Responds todos total (suc n) (suc i) evs next (omega arith))

abbrev Split : ℕ → ℕ → ParseResult → Type 0
Split n todos p = (length p.errors + length p.events ≡ n) × (p.skipped_todo ≡ todos)

add_parsed-Split :
    (lib : DateLayouts) (n todos : ℕ) (o : Parsed) (p : ParseResult)
    → Split n todos p
    → Split (suc n) todos (add_parsed lib o p)
add_parsed-Split lib n todos (mapped ev) p h = (omega arith, h.1)
add_parsed-Split lib n todos (broken x) p h = (omega arith, h.1)

parse_events-Split :
    (lib : DateLayouts) (todos i : ℕ) (vs : List VEvent)
    → Split (length vs) todos (parse_events lib todos i vs)
unfolding parse_events
parse_events-Split lib todos i [] = (refl, refl)
parse_events-Split lib todos i (v ∷ vs) =
    add_parsed-Split lib (length vs) todos _ _ (parse_events-Split lib todos (suc i) vs)

item_errors-length : (l : List ParseError) → length (map item_error l) ≡ length l
item_errors-length [] = refl
item_errors-length (x ∷ l) = omega (arith, item_errors-length l)

module _ (e : SyncEnv) (lib : DateLayouts) (group_owner : ℕ → Option ℕ)
    (opts : IcsImportOptions) where
  import_parsed-Responds :
      (n todos : ℕ) (p : ParseResult)
      → Split n todos p
      → Responds (import_parsed e lib group_owner opts p) (Counts n todos)
  unfolding import_parsed
  import_parsed-Responds n todos p h =
      import_parsed_events-Responds e lib group_owner opts todos n (length p.errors) 0 p.events _
        h.0 (omega (arith, item_errors-length p.errors), h.1)

  import_read-Responds :
      (cal : Calendar)
      → Responds
          (import_read e lib group_owner opts (some cal))
          (Counts (length cal.events) cal.todos)
  unfolding import_read parse
  import_read-Responds cal =
      import_parsed-Responds (length cal.events) cal.todos _
        (parse_events-Split lib cal.todos 0 cal.events)

  -- An import of a readable file whose options are accepted does not fail, whatever becomes of its
  -- events: its answer has one id or error for each VEVENT of the file and the number of its
  -- to-do entries, unless a library panics.
  pub import_ics-Counts :
      (cal : Calendar) (w : World)
      → (check_options e lib group_owner opts w).0 ≡ ok tt
      → Answers
          (Counts (length cal.events) cal.todos)
          (import_ics e lib group_owner opts (some cal) w).0
  unfolding import_ics ◌>>=◌
  import_ics-Counts cal w accepted =
      rw accepted ((import_read-Responds cal).at (check_options e lib group_owner opts w).1)
