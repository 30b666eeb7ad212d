-- ===== src/Cli.antt =====
-- src/cli: the command line.
pub mod Args
pub mod Skills
