-- ===== src/Ws/ReadLoop/Bounds.antt =====
-- How large the messages are that the read loop hands on.
use ferroly.Base.{
  ℕ, ◌≤◌, ◌≡◌, inl, inr, Bool, true, false, List, [], ◌∷◌, ◌++◌, Option, none, some, length, All,
  All-append, arith, Bool-cases,
}
use ferroly.Base.Bytes.{Bytes}
use ferroly.Ws.Frame.{Opcode, continuation, text, binary, close, ping, pong, Frame}
use ferroly.Ws.ReadLoop.{
  exceeds, message, message_frame, continuation_frame, dispatch, turn, read_loop,
}
use ferroly.Ws.ReadLoop.Messages.{IsMessage, message-IsMessage}

-- The message is made of a payload that is not above `max`.
abbrev pub IsBounded : (Bytes → Bytes) → ℕ → Opcode × Bytes → Type 0
IsBounded from_utf8_lossy max m =
    (payload : Bytes) × (length payload ≤ max) × IsMessage from_utf8_lossy m.0 payload m.1

module _ (from_utf8_lossy : Bytes → Bytes) (max : ℕ) where
  emit-IsBounded :
      (op : Opcode) (payload : Bytes)
      → exceeds (some max) (length payload) ≡ false
      → IsBounded from_utf8_lossy max (op, message from_utf8_lossy op payload)
  unfolding exceeds
  emit-IsBounded op payload e =
      (payload, ground arith, message-IsMessage from_utf8_lossy op payload)

  message_frame-IsBounded :
      (taken : Bool) (frag : Option (Opcode × Bytes)) (op : Opcode) (fin : Bool) (payload : Bytes)
      → All
          (IsBounded from_utf8_lossy max)
          (message_frame from_utf8_lossy (some max) taken frag op fin payload).emitted
  unfolding message_frame
  message_frame-IsBounded taken frag op false payload = tt
  message_frame-IsBounded taken frag op true payload =
      elim (Bool-cases (exceeds (some max) (length payload))) [
        | inl over ↦ rw over tt
        | inr fits ↦ elim (Bool-cases taken) [
          | inl there ↦ rw (fits, there) (emit-IsBounded op payload fits, tt)
          | inr gone ↦ rw (fits, gone) tt
        ]
      ]

  continuation_frame-IsBounded :
      (taken : Bool) (frag : Option (Opcode × Bytes)) (fin : Bool) (payload : Bytes)
      → All
          (IsBounded from_utf8_lossy max)
          (continuation_frame from_utf8_lossy (some max) taken frag fin payload).emitted
  unfolding continuation_frame
  continuation_frame-IsBounded taken none fin payload = tt
  continuation_frame-IsBounded taken (some (op, buf)) fin payload =
      elim (Bool-cases (exceeds (some max) (length (buf ++ payload)))) [
        | inl over ↦ rw over tt
        | inr fits ↦ elim (Bool-cases fin) [
          | inr more ↦ rw (fits, more) tt
          | inl last ↦ elim (Bool-cases taken) [
            | inl there ↦ rw (fits, last, there) (emit-IsBounded op (buf ++ payload) fits, tt)
            | inr gone ↦ rw (fits, last, gone) tt
          ]
        ]
      ]

  turn-IsBounded :
      (taken : Bool) (frag : Option (Opcode × Bytes)) (op : Opcode) (fin : Bool) (payload : Bytes)
      → All
          (IsBounded from_utf8_lossy max)
          (dispatch from_utf8_lossy (some max) taken frag op fin payload).emitted
  unfolding dispatch
  turn-IsBounded taken frag ping fin payload = tt
  turn-IsBounded taken frag pong fin payload = tt
  turn-IsBounded taken frag close fin payload = tt
  turn-IsBounded taken frag text fin payload = message_frame-IsBounded taken frag text fin payload
  turn-IsBounded taken frag binary fin payload =
      message_frame-IsBounded taken frag binary fin payload
  turn-IsBounded taken frag continuation fin payload =
      continuation_frame-IsBounded taken frag fin payload

-- Whatever frames arrive, every message handed on is made of a payload of at most `max_message_size`
-- bytes: a text message is the string that `from_utf8_lossy` makes of it, any other is the payload.
pub read_loop-IsBounded :
    (from_utf8_lossy : Bytes → Bytes) (max : ℕ) (frag : Option (Opcode × Bytes))
    (fs : List (Frame × Bool))
    → All (IsBounded from_utf8_lossy max) (read_loop from_utf8_lossy (some max) frag fs).emitted
unfolding read_loop turn
read_loop-IsBounded from_utf8_lossy max frag [] = tt
read_loop-IsBounded from_utf8_lossy max frag ((f, taken) ∷ fs) =
    let t = turn from_utf8_lossy (some max) taken frag f in
    let here = turn-IsBounded from_utf8_lossy max taken frag f.opcode f.fin f.payload in
    let later = read_loop-IsBounded from_utf8_lossy max t.frag fs in
    elim (Bool-cases t.alive) [
      | inl on ↦ rw on (
          All-append (IsBounded from_utf8_lossy max) t.emitted
            (read_loop from_utf8_lossy (some max) t.frag fs).emitted here later)
      | inr off ↦ rw off here
    ]
