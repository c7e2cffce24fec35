-- ===== src/Ws/WriteLoop.antt =====
-- `write_loop` of crates/ferroly/src/ws/conn.rs over the messages that it takes from its channel, each
-- with the bytes that the random generator gives for its mask. A text is its UTF-8 bytes. A connection
-- that takes everything is written to; an error of the connection ends the loop early.
pub mod Laws
use ferroly.Base.{ℕ, Bool, true, false, List, [], ◌∷◌, ◌++◌, Option, none, some}
use ferroly.Base.Bytes.{Bytes}
use ferroly.Ws.Frame.{Opcode, text, binary, pong, close, Frame, encode}

-- `Outgoing`, with the application's messages.
pub data Outgoing : Type 0 where
  text_msg : Bytes → Outgoing
  binary_msg : Bytes → Outgoing
  pong_msg : Bytes → Outgoing
  close_msg : Outgoing

-- The opcode and the payload that a message is written with.
unfoldable pub opcode_of : Outgoing → Opcode
opcode_of (text_msg t) = text
opcode_of (binary_msg b) = binary
opcode_of (pong_msg p) = pong
opcode_of close_msg = close

unfoldable pub payload_of : Outgoing → Bytes
payload_of (text_msg t) = t
payload_of (binary_msg b) = b
payload_of (pong_msg p) = p
payload_of close_msg = []

-- The mask of a message: `some` for a client, whose frames are masked.
abbrev pub key_for : Bool → Bytes → Option Bytes
key_for true key = some key
key_for false key = none

unfoldable pub write_loop : Bool → List (Outgoing × Bytes) → Bytes
unfolding opcode_of payload_of
write_loop mask [] = []
write_loop mask ((close_msg, key) ∷ msgs) = encode true close [] (key_for mask key)
write_loop mask ((text_msg t, key) ∷ msgs) =
    encode true text t (key_for mask key) ++ write_loop mask msgs
write_loop mask ((binary_msg b, key) ∷ msgs) =
    encode true binary b (key_for mask key) ++ write_loop mask msgs
write_loop mask ((pong_msg p, key) ∷ msgs) =
    encode true pong p (key_for mask key) ++ write_loop mask msgs
