-- ===== src/Models.antt =====
-- internal/models
pub mod Account
pub mod Event
