-- ===== src/Commands.antt =====
-- cmd/sparkdb/commands: the command line.
pub mod Import
pub mod Shell
pub mod Export
pub mod Init
pub mod Start
pub mod Crypto
pub mod Admin
pub mod Backups
