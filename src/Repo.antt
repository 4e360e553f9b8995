-- ===== src/Repo.antt =====
-- The PostgreSQL repositories, a module for each.
pub mod Users
pub mod Refresh
pub mod Reset
pub mod Mail
pub mod Outbox
pub mod Inserts
pub mod Tenants
pub mod Sqlite
