-- ===== src/Sync.antt =====
-- internal/service/calendar_sync_service.go: the synchronisation with Google Calendar.
pub mod World
pub mod Event
pub mod Rows
pub mod Client
pub mod Export
pub mod Outbox
pub mod Fields
pub mod Import
pub mod Bindings
pub mod Ics
