-- ===== src/Lib.antt =====
-- A verification library of goreminder, a reminder server written in Go: tasks with a cron
-- expression or an RRULE are stored in PostgreSQL, and messages on a queue tell workers when to
-- send them.
--
-- Parts. A request reaches the task service (internal/service/task_service.go), which reads and
-- writes rows through the task repository, computes dates with the recurrence functions, queues
-- events for the workers, and tells a hook of the calendar export. A timer runs the scheduler,
-- which moves overdue tasks.
--
--   Errors          internal/errors/http.go: error classes, and the outcome of a fallible function
--   Clock           time.Time and its calendar (Clock.Civil, Clock.Bounds)
--   Text            Go strings, and the functions of strings and strconv that the code calls
--   Models          internal/models/task.go, messenger.go
--   Recurrence      internal/service/task_recurrence.go: Rules (recurrenceFieldSet to
--                   hasRecurrenceRule), Next (nextStartFromRRule, nextRecurrenceAfter,
--                   nextExecutableStartDate), Shift (shiftRecurrenceFromCompletion and its helpers)
--   PreRemind       internal/service/task_pre_remind.go
--   Queue           pkg/queue/events.go
--   Calendar        internal/service/calendar_sync_helpers.go: Backoff, Rule, Cron, Scope
--   Service.World   the state, the environment and the monad of the task service; Keeps and Ensures
--                   are its program logic
--   Service.Repository  internal/repository/task_repository.go, task_history_repository.go;
--                   Transaction is BeginTxx, Commit and the deferred Rollback
--   Service.Publish history values, messenger lookups and the queue (getMessengerName,
--                   publishTaskEvent, publishScheduleTaskEvent)
--   Service.Effects what several methods share: history, the next child, attachment purges
--   Service.Series  the shift of a series from a completion: prepareCompletionShift
--   Service.Create, Complete, Delete, Mute, Reschedule   CreateTask; MarkTaskAsDone; DeleteTask;
--                   QueueTask, MuteTask, UnmuteTask; RescheduleTask, RescheduleTasks,
--                   RescheduleCronTasks and RunScheduledRescheduling of task_scheduler.go
--   Service.Update  UpdateTask: Request (models/task_update_request.go and the comparison of the row
--                   with the request), Children (the children of a series)
--   Sync            internal/service/calendar_sync_service.go: World (the tables of the integration
--                   beside the state of the task service, its environment and the program logic),
--                   Event and Fields (calendar_sync_helpers.go, calendar_sync_history.go), Rows
--                   (task_sync_link_repository.go, calendar_binding_repository.go,
--                   sync_outbox_repository.go), Client (clientForAccountID and the calls of
--                   Google), Export (EnqueueExport, EnableTaskExport), Outbox (ProcessOutbox),
--                   Import (upsertImportedEvent), Bindings (SyncBinding, DeleteBinding, runOnce),
--                   Ics (pkg/ics/parse.go and, in Ics.Import, ics_import_service.go)
--   Accounts        the services on users, messengers, groups, backlogs, targets and digests: World
--                   (their tables beside the state of the task service, the monad, and triples as
--                   its program logic), Table and Rows (the repositories, with the pages of a list),
--                   Lookups (shared checks, activity_tracker.go), Listing (the lists of tasks of
--                   task_repository.go, with stableOrderBy and escapeLikePattern), Users, Messengers,
--                   Groups, Items (backlog_service.go and target_service.go), Digests, and Lists
--                   (reads that pass on to a repository, GetUserTasks, GetAllTasks)
--   Service.Inventory, History   GetSchedulableInventory and the history of attachments; GetTaskHistory
--                   and GetUserTaskHistory
--   Service.Frame, Total   rules for the proofs: what a method leaves alone, what cannot fail
--   Examples        concrete runs
--
-- The model. A Go pointer that may be nil is an Option; identifiers are serial numbers and
-- natural. An instant counts nanoseconds from the zero time, so earlier instants do not exist. A
-- text is a list of code points; case and spaces are those of ASCII. A method is a function from
-- the state to an outcome and a state; an error and a panic are outcomes. Each call of the
-- database, the queue or the clock has a number, and the environment says for each number whether
-- the call fails and what the clock shows, so a statement for all environments covers every
-- pattern of failures. The writes of a transaction are kept aside until the commit; reads see the
-- committed rows, as the code reads outside its transactions. Queries without an ORDER BY are
-- read in the order of the table. Rows of other tables do not change while a method runs.
--
-- Parameters. The packages cronexpr, robfig/cron and rrule-go are the record Libraries; the
-- theorems on dates assume what their documentation says: Next and After give the zero time or a
-- later instant. Google's answers, the token cipher and the order of a Go map are fields of the
-- environment of Sync; the answers to ListEvents are a list that the import consumes.
--
-- A calendar file is what golang-ical reads from it; two date layouts of package time are the record
-- DateLayouts, of which a theorem assumes that a date is midnight and is read as it was written.
--
-- The order of ORDER BY in each query (rows that tie may change places from one to the next), the
-- time layout 15:04, the column created_at of tasks and the joins of the inventory are fields of
-- the environment of Accounts, or parameters.
--
-- Bounds. An offset is an int64 of (page - 1) * pageSize that wraps around, and the database refuses
-- a negative one. The 24-hour loop has `now / day + 1` turns of fuel, which are enough since it starts a
-- day after an instant that is not negative. strconv.Itoa has as much fuel as the number. The
-- purge of attachments makes three attempts, as the code does; its pauses are left out, and so are
-- logs and traces.
--
-- Not modelled: row locks, foreign keys, OAuth and the creation of bindings,
-- the HTTP layer, and start-up. LIKE is that of PostgreSQL with ASCII letters. An error that a row
-- or an answer stores is kept as its class, or left out, in place of its text.
pub mod Prelude
pub mod Text
pub mod Errors
pub mod Clock
pub mod Models
pub mod Recurrence
pub mod PreRemind
pub mod Queue
pub mod Accounts
pub mod Calendar
pub mod Service
pub mod Sync
pub mod Examples
