-- ===== src/Accounts/Rows.antt =====
-- The repositories of internal/repository that Accounts/Table.antt serves. The columns created_at
-- and updated_at are left out.
pub mod Users
pub mod Messengers
pub mod Groups
pub mod Items
pub mod Digests
