-- ===== src/Service.antt =====
-- internal/auth/service.go
pub mod Context
pub mod Sessions
pub mod Signup
pub mod Verification
pub mod Login
pub mod Passwords
pub mod Requests
