-- ===== src/Demo.antt =====
-- The two example services of the repository, examples/minimal and examples/full-stack.
pub mod Minimal
pub mod FullStack
