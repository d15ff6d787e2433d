-- ===== src/Accounts.antt =====
-- The services on users, messengers, task groups, backlogs, targets and digest settings
-- (internal/service and internal/repository).
pub mod World
pub mod Table
pub mod Rows
pub mod Lookups
pub mod Listing
pub mod Users
pub mod Messengers
pub mod Groups
pub mod Items
pub mod Digests
pub mod Lists
