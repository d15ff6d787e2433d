-- ===== src/Accounts/Listing.antt =====
-- internal/repository/task_repository.go: the lists of tasks. LIKE patterns are those of
-- PostgreSQL, where a backslash stands before a character that is meant as it is.
pub mod Title
use goreminder.Prelude.{
  ℕ, Bool, true, false, not, ◌&&◌, ◌||◌, Option, none, some, is_some, List, [], ◌∷◌, ◌++◌, any,
  null, leb, ◌==◌, if◌then◌else◌,
}
use goreminder.Prelude.Int.{ℤ}
use goreminder.Text.{
  Text, codes, text_eq, trim_space, fields, split, to_lower, after_last, trim_char,
}
use goreminder.Clock.{Time}
use goreminder.Models.{Task}
use goreminder.Sync.Rows.{select}
use goreminder.Service.World.{World}
use goreminder.Accounts.World.{AccountEnv, Accounts, AccountWorld, pure, gets, call, ◌>>=◌, ◌>>◌}
use goreminder.Accounts.Table.{
  page_number, page_limit, order_or_default, if_given, in_related, is_live, page_rows,
}
use goreminder.Accounts.Listing.Title.{ilike, escape_like_pattern}

-- the parameters of the lists, nil where there is no filter
pub record TaskFilter : Type 0 where
  pub user_id : Option ℕ
  pub status : Option Text
  pub status_not : Option Text
  pub start_date_from : Option Time
  pub start_date_to : Option Time
  pub created_at_from : Option Time
  pub created_at_to : Option Time
  pub cron_expression : Option Text
  pub cron_expression_is_null : Option Bool
  pub requires_confirmation : Option Bool
  pub messenger_related_user_ids : Option (List ℕ)
  pub exclude_cron_with_confirmation : Option Bool
  pub external_provider : Option Text
  pub title : Option Text
  pub exclude_skip_digest : Option Bool

-- a text that filters unless it is empty
abbrev pub if_text : (Text → Bool) → Option Text → Bool
if_text p none = true
if_text p (some s) = if null s then true else p s

abbrev same_flag : Bool → Bool → Bool
same_flag true b = b
same_flag false b = not b

-- a flag that filters if it is set
abbrev if_set : Bool → Option Bool → Bool
if_set test none = true
if_set test (some on) = if on then test else true

abbrev column_is : Text → Option Text → Bool
column_is s none = false
column_is s (some t) = text_eq t s

-- the pattern of a search by title
unfoldable pub title_pattern : Text → Text
title_pattern s = b'%' ∷ (escape_like_pattern s ++ b'%' ∷ [])

unfoldable pub matches_columns : AccountEnv → TaskFilter → Task → Bool
matches_columns e f t =
    is_live t.deleted_at
    && if_given (λ u. t.user_id == u) f.user_id
    && if_text (text_eq t.status) f.status
    && if_text (λ s. not (text_eq t.status s)) f.status_not
    && if_given (λ from. leb from t.start_date) f.start_date_from
    && if_given (λ to. leb t.start_date to) f.start_date_to
    && if_given (λ from. leb from (e.task_created_at t.id)) f.created_at_from
    && if_given (λ to. leb (e.task_created_at t.id) to) f.created_at_to
    && if_text (λ s. column_is s t.cron_expression) f.cron_expression
    && if_given (λ b. same_flag b (not (is_some t.cron_expression))) f.cron_expression_is_null
    && if_given (λ b. same_flag b t.requires_confirmation) f.requires_confirmation
    && in_related f.messenger_related_user_ids t.messenger_related_user_id
    && if_set
        (not (is_some t.cron_expression) && not (is_some t.rrule) || not t.requires_confirmation)
        f.exclude_cron_with_confirmation
    && if_text (e.has_provider t.id) f.external_provider
    && if_set (not t.skip_digest) f.exclude_skip_digest

-- the WHERE of the lists
unfoldable pub is_listed : AccountEnv → TaskFilter → Task → Bool
unfolding matches_columns
is_listed e f t = matches_columns e f t && if_text (λ s. ilike (title_pattern s) t.title) f.title

-- the column that a part of ORDER BY sorts by, without its table and quotes
abbrev first_field : List Text → Text
first_field [] = []
first_field (f ∷ fs) = f

unfoldable pub column_of : Text → Text
column_of part = trim_char b'"' (after_last b'.' (trim_char b'"' (first_field (fields part))))

unfoldable pub order_by_includes_column : Text → Text → Bool
unfolding column_of
order_by_includes_column order_by column =
    any
      (λ part.
        not (null (trim_space part)) && text_eq (to_lower (column_of part)) (to_lower column))
      (split b',' order_by)

-- adds the id, so that pages do not overlap where the sort key has ties
unfoldable pub stable_order_by : Text → Text
unfolding order_by_includes_column
stable_order_by order_by =
    let order = order_or_default (trim_space order_by) in
    if order_by_includes_column order (codes "id") then order else order ++ codes ", id ASC"

module _ (e : AccountEnv) where
  -- GetTasksByUserID: one-time tasks, and occurrences of a series
  unfoldable pub get_tasks_by_user_id : ℕ → Accounts (List Task)
  get_tasks_by_user_id user = do
    call e
    gets (λ s.
        select
          (λ t.
            is_live t.deleted_at
            && (t.user_id == user)
            && (not (is_some t.cron_expression) && not (is_some t.rrule) || is_some t.parent_id))
          s.base.tasks)

  -- GetTasksByUserIDWithPagination and GetAllTasks
  unfoldable pub list_tasks : TaskFilter → ℤ → ℤ → Text → Accounts (List Task × ℕ)
  list_tasks f page size order_by = do
    call e
    counted ← gets (λ s. select (is_listed e f) s.base.tasks)
    n ← gets (λ s. s.base.calls)
    call e
    rows ← gets (λ s. select (is_listed e f) s.base.tasks)
    found ←
        page_rows (page_number page) (page_limit size)
          (e.order_tasks n (stable_order_by (order_or_default order_by)) rows)
    pure (found, goreminder.Prelude.length counted)
