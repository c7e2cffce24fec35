-- ===== src/Codec.antt =====
-- crates/ferroly/src/codec: the data model and the JSON codec.
pub mod Value
pub mod Fmt
pub mod Json
