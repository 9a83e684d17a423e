-- ===== src/Core.antt =====
-- The module core: typed errors, features, health checks, the application context, the shutdown
-- token and the bootstrap pipeline.
pub mod CoreError
pub mod ApiError
pub mod Features
pub mod Health
pub mod AppContext
pub mod Shutdown
pub mod Bootstrap
