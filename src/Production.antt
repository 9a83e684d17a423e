-- ===== src/Production.antt =====
-- The package hwhkit/production.
pub mod Serve
pub mod Endpoints
pub mod Chain
