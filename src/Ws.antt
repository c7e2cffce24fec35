-- ===== src/Ws.antt =====
-- crates/ferroly/src/ws: the frames of RFC 6455, the buffered reader and the read loop.
pub mod Frame
pub mod Reader
pub mod Conn
pub mod ReadLoop
pub mod WriteLoop
