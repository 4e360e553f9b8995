-- ===== src/Config.antt =====
-- internal/config: the settings of the server, read from the environment.
pub mod Values
pub mod Load
pub mod Origins
