-- ===== src/Ws/ReadLoop.antt =====
-- `read_loop` of crates/ferroly/src/ws/conn.rs over the frames that `read_frame` returns; the end of the
-- list is its first error. Whether the receiving task still takes a message is the argument `taken`. The
-- standard library's `String::from_utf8_lossy`, which `emit` applies to text, is the parameter
-- `from_utf8_lossy`; a string is its bytes.
pub mod Messages
pub mod Fragments
pub mod Bounds
use ferroly.Base.{
  ℕ, ◌≤◌, Bool, true, false, not, ◌||◌, List, [], ◌∷◌, ◌++◌, Option, none, some, ltb, if◌then◌else◌,
  length,
}
use ferroly.Base.Bytes.{Bytes}
use ferroly.Ws.Frame.{Opcode, continuation, text, binary, close, ping, pong, Frame}

-- What is queued for the peer (`Outgoing`, without the application's own messages).
pub data Reply : Type 0 where
  closing : Reply
  pong_with : Bytes → Reply

-- What one frame makes the loop do: the new `frag`, the replies queued, the payloads handed to the
-- application with their opcodes, and whether the loop goes on.
pub record Turn : Type 0 where
  pub frag : Option (Opcode × Bytes)
  pub replies : List Reply
  pub emitted : List (Opcode × Bytes)
  pub alive : Bool

unfoldable pub exceeds : Option ℕ → ℕ → Bool
exceeds none len = false
exceeds (some max) len = ltb max len

abbrev quiet : Option (Opcode × Bytes) → Turn
quiet frag = record { frag = frag; replies = []; emitted = []; alive = true }

-- The payload that `emit` makes the message of.
unfoldable pub message : (Bytes → Bytes) → Opcode → Bytes → Bytes
message from_utf8_lossy text payload = from_utf8_lossy payload
message from_utf8_lossy _ payload = payload

-- `emit`: the message is lost, and the loop ends, if nobody takes it.
abbrev emit : (Bytes → Bytes) → Bool → Option (Opcode × Bytes) → Opcode → Bytes → Turn
emit from_utf8_lossy taken frag op payload =
    if taken
    then record {
      frag = frag;
      replies = [];
      emitted = (op, message from_utf8_lossy op payload) ∷ [];
      alive = true;
    }
    else record { frag = frag; replies = []; emitted = []; alive = false }

abbrev broken : Option (Opcode × Bytes) → Turn
broken frag = record { frag = frag; replies = []; emitted = []; alive = false }

unfoldable pub message_frame :
    (Bytes → Bytes) → Option ℕ → Bool → Option (Opcode × Bytes) → Opcode → Bool → Bytes → Turn
unfolding exceeds message
message_frame from_utf8_lossy max taken frag op fin payload =
    if fin
    then (if exceeds max (length payload)
        then broken frag
        else emit from_utf8_lossy taken frag op payload)
    else quiet (some (op, payload))

unfoldable pub continuation_frame :
    (Bytes → Bytes) → Option ℕ → Bool → Option (Opcode × Bytes) → Bool → Bytes → Turn
unfolding exceeds message
continuation_frame from_utf8_lossy max taken none fin payload = quiet none
continuation_frame from_utf8_lossy max taken (some (op, buf)) fin payload =
    let buf' = buf ++ payload in
    if exceeds max (length buf')
    then broken (some (op, buf'))
    else if fin
    then emit from_utf8_lossy taken none op buf'
    else quiet (some (op, buf'))

unfoldable pub dispatch :
    (Bytes → Bytes) → Option ℕ → Bool → Option (Opcode × Bytes) → Opcode → Bool → Bytes → Turn
unfolding message_frame continuation_frame
dispatch from_utf8_lossy max taken frag ping fin payload = record {
  frag = frag;
  replies = pong_with payload ∷ [];
  emitted = [];
  alive = true;
}
dispatch from_utf8_lossy max taken frag pong fin payload = quiet frag
dispatch from_utf8_lossy max taken frag close fin payload = record {
  frag = frag;
  replies = closing ∷ [];
  emitted = [];
  alive = false;
}
dispatch from_utf8_lossy max taken frag text fin payload =
    message_frame from_utf8_lossy max taken frag text fin payload
dispatch from_utf8_lossy max taken frag binary fin payload =
    message_frame from_utf8_lossy max taken frag binary fin payload
dispatch from_utf8_lossy max taken frag continuation fin payload =
    continuation_frame from_utf8_lossy max taken frag fin payload

-- The body of the loop for one frame.
unfoldable pub turn : (Bytes → Bytes) → Option ℕ → Bool → Option (Opcode × Bytes) → Frame → Turn
unfolding dispatch
turn from_utf8_lossy max taken frag f =
    dispatch from_utf8_lossy max taken frag f.opcode f.fin f.payload

pub record Log : Type 0 where
  pub replies : List Reply
  pub emitted : List (Opcode × Bytes)

-- The loop, over frames that each come with the receiver's readiness.
unfoldable pub read_loop :
    (Bytes → Bytes) → Option ℕ → Option (Opcode × Bytes) → List (Frame × Bool) → Log
read_loop from_utf8_lossy max frag [] = record { replies = []; emitted = [] }
read_loop from_utf8_lossy max frag ((f, taken) ∷ fs) =
    let t = turn from_utf8_lossy max taken frag f in
    let rest = read_loop from_utf8_lossy max t.frag fs in
    if t.alive
    then record { replies = t.replies ++ rest.replies; emitted = t.emitted ++ rest.emitted }
    else record { replies = t.replies; emitted = t.emitted }
