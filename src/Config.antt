-- ===== src/Config.antt =====
-- The package config: durations, the configuration tree, the bootstrap parameters and the loader.
pub mod Durations
pub mod Integrations
pub mod AppConfig
pub mod Bootstrap
pub mod Loader
