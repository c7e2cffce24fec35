-- ===== src/Codec/Json.antt =====
-- crates/ferroly/src/codec/json.rs: the encoder and the parser.
pub mod Write
pub mod Read
pub mod Parse
pub mod Readable
pub mod RoundTrip
pub mod Height
pub mod Total
pub mod Deep
