-- ===== src/Cli.antt =====
-- transport/cli: the command-line transport.
pub mod ExitCode
pub mod MapError
pub mod GlobalFlags
pub mod Node
pub mod Runner
pub mod Flags
