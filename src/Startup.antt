-- ===== src/Startup.antt =====
-- cmd/server/main.go, internal/db and the factories of the repositories: how the server starts.
pub mod Databases
pub mod Connect
pub mod Keys
pub mod Logger
pub mod Scripts
pub mod Main
pub mod Serves
