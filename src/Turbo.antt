-- ===== src/Turbo.antt =====
-- crates/ferroly/src/turbo/mod.rs: the HTTP router. Paths are bytes; `/` is a byte of its own in UTF-8.
pub mod Path
pub mod Dispatch
pub mod Percent
pub mod Build
