-- ===== src/Cmd.antt =====
-- The command line tool, cmd/hwhkit: a module for each subcommand with logic of its own.
pub mod Migrate
pub mod Dev
pub mod Scaffold
pub mod Commands
