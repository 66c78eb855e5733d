-- ===== src/Cli.antt =====
-- src/cli.rs, one module for each part.
pub mod Foreign
pub mod Values
pub mod Names
pub mod Settings
pub mod Config
pub mod Options
