-- ===== src/Configuration.antt =====
-- internal/configuration.
pub mod Constants
pub mod TlsModes
pub mod LogLevel
pub mod Settings
pub mod Startup
