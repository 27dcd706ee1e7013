-- ===== src/Config.antt =====
-- internal/config/config.go: the settings of the server, read from the environment.
pub mod Load
pub mod Accepted
