-- ===== src/Connection.antt =====
-- src/connection.rs, one module for each part.
pub mod Assembler
pub mod Measure
pub mod Replies
pub mod Ble
pub mod Link
pub mod Direct
pub mod Radio
pub mod Scan
pub mod Subscribe
