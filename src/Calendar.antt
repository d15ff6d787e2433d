-- ===== src/Calendar.antt =====
-- internal/service/calendar_sync_helpers.go: the pure functions of the calendar synchronisation.
pub mod Backoff
pub mod Rule
pub mod Cron
pub mod Scope
