-- ===== src/Lifecycle.antt =====
-- crates/ferroly/src/lifecycle. An id is a number, in the order of the strings that the source compares.
pub mod Graph
pub mod Manager
