-- ===== src/Cli.antt =====
-- What the executables do with their command line: pkg/version, pkg/capabilities, pkg/logger and the
-- main functions.
pub mod Json
pub mod Version
pub mod Logger
pub mod Flags
pub mod Main
