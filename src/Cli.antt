-- ===== src/Cli.antt =====
-- The command line (cli/).
pub mod Format
pub mod Changed
pub mod Load
pub mod Filters
pub mod Analyze
mod Tests
