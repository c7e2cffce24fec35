-- ===== src/Ws/ReadLoop/Messages.antt =====
-- What the application is handed for a payload.
use ferroly.Base.{◌≡◌, refl}
use ferroly.Base.Bytes.{Bytes}
use ferroly.Ws.Frame.{Opcode, continuation, text, binary, close, ping, pong}
use ferroly.Ws.ReadLoop.{message}

-- What `emit` promises for a message: text that is converted, and anything else as it is.
abbrev pub IsMessage : (Bytes → Bytes) → Opcode → Bytes → Bytes → Type 0
IsMessage from_utf8_lossy text payload given = given ≡ from_utf8_lossy payload
IsMessage from_utf8_lossy _ payload given = given ≡ payload

pub message-IsMessage :
    (from_utf8_lossy : Bytes → Bytes) (op : Opcode) (payload : Bytes)
    → IsMessage from_utf8_lossy op payload (message from_utf8_lossy op payload)
unfolding message
message-IsMessage from_utf8_lossy text payload = refl
message-IsMessage from_utf8_lossy binary payload = refl
message-IsMessage from_utf8_lossy continuation payload = refl
message-IsMessage from_utf8_lossy close payload = refl
message-IsMessage from_utf8_lossy ping payload = refl
message-IsMessage from_utf8_lossy pong payload = refl
