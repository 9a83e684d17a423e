-- ===== src/Middleware.antt =====
-- The package hwhkit/middleware.
pub mod RequestId
pub mod Recover
pub mod AccessLog
pub mod Cors
pub mod Limits
