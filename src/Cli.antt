-- ===== src/Cli.antt =====
-- src/cli/: the commands of the command line that decide something themselves.
pub mod Update
pub mod Check
