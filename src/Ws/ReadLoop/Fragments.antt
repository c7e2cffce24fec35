-- ===== src/Ws/ReadLoop/Fragments.antt =====
-- Fragmented messages, and what is put together from them.
use mathlib.Core.List.{append_assoc}
use ferroly.Base.{
  ℕ, ◌≤◌, ◌≡◌, ◌⊎◌, inl, inr, refl, ap, sym, ◌∙◌, Bool, true, false, List, [], ◌∷◌, ◌++◌, Option,
  none, some, length, length-append, arith,
}
use ferroly.Base.Bytes.{Bytes}
use ferroly.Ws.Frame.{Opcode, continuation, text, binary, ping, pong, Frame}
use ferroly.Ws.ReadLoop.{Reply, pong_with, exceeds, message, turn, Log, read_loop}
use ferroly.Ws.ReadLoop.Messages.{IsMessage, message-IsMessage}

-- What may stand between the first frame of a message and its last.
pub data Piece : Type 0 where
  part : Bytes → Piece
  pinged : Bytes → Piece
  ponged : Bytes → Piece

abbrev pub frame_of : Piece → Frame
frame_of (part payload) = record { fin = false; opcode = continuation; payload = payload }
frame_of (pinged payload) = record { fin = true; opcode = ping; payload = payload }
frame_of (ponged payload) = record { fin = true; opcode = pong; payload = payload }

abbrev pub frames_of : List Piece → List (Frame × Bool)
frames_of [] = []
frames_of (p ∷ ps) = (frame_of p, true) ∷ frames_of ps

-- The bytes that the pieces add to the message, and the pings that they ask an answer to.
abbrev pub parts : List Piece → Bytes
parts [] = []
parts (part payload ∷ ps) = payload ++ parts ps
parts (pinged payload ∷ ps) = parts ps
parts (ponged payload ∷ ps) = parts ps

abbrev pub pongs : List Piece → List Reply
pongs [] = []
pongs (part payload ∷ ps) = pongs ps
pongs (pinged payload ∷ ps) = pong_with payload ∷ pongs ps
pongs (ponged payload ∷ ps) = pongs ps

abbrev pub IsWithin : Option ℕ → ℕ → Type 0
IsWithin none len = Unit
IsWithin (some max) len = len ≤ max

exceeds_of_IsWithin :
    (max : Option ℕ) (len more : ℕ) → IsWithin max more → len ≤ more → exceeds max len ≡ false
unfolding exceeds
exceeds_of_IsWithin none len more h k = refl
exceeds_of_IsWithin (some max) len more h k = ground arith

abbrev pub last_frame : Bytes → Frame
last_frame payload = record { fin = true; opcode = continuation; payload = payload }

prepend : List Reply → List (Opcode × Bytes) → Log → Log
prepend rs es l = record { replies = rs ++ l.replies; emitted = es ++ l.emitted }

module _ (from_utf8_lossy : Bytes → Bytes) (max : Option ℕ) (op : Opcode) where
  turn_part :
      (buf payload : Bytes)
      → exceeds max (length (buf ++ payload)) ≡ false
      → turn from_utf8_lossy max true (some (op, buf)) (frame_of (part payload))
        ≡ record { frag = some (op, buf ++ payload); replies = []; emitted = []; alive = true }
  unfolding turn
  turn_part buf payload e = rw e

  turn_last :
      (buf payload : Bytes)
      → exceeds max (length (buf ++ payload)) ≡ false
      → turn from_utf8_lossy max true (some (op, buf)) (last_frame payload) ≡ record {
        frag = none;
        replies = [];
        emitted = (op, message from_utf8_lossy op (buf ++ payload)) ∷ [];
        alive = true;
      }
  unfolding turn
  turn_last buf payload e = rw e

  turn_pinged :
      (frag : Option (Opcode × Bytes)) (payload : Bytes)
      → turn from_utf8_lossy max true frag (frame_of (pinged payload))
        ≡ record { frag = frag; replies = pong_with payload ∷ []; emitted = []; alive = true }
  unfolding turn
  turn_pinged frag payload = refl

  turn_ponged :
      (frag : Option (Opcode × Bytes)) (payload : Bytes)
      → turn from_utf8_lossy max true frag (frame_of (ponged payload))
        ≡ record { frag = frag; replies = []; emitted = []; alive = true }
  unfolding turn
  turn_ponged frag payload = refl

  fragments_from :
      (ps : List Piece) (buf final : Bytes) (rest : List (Frame × Bool))
      → IsWithin max (length (buf ++ (parts ps ++ final)))
      → read_loop from_utf8_lossy max
          (some (op, buf))
          (frames_of ps ++ ((last_frame final, true) ∷ rest))
        ≡ prepend
            (pongs ps)
            ((op, message from_utf8_lossy op (buf ++ (parts ps ++ final))) ∷ [])
            (read_loop from_utf8_lossy max none rest)
  unfolding read_loop prepend
  fragments_from [] buf final rest h =
      rw (turn_last buf final (exceeds_of_IsWithin max _ _ h (omega arith)))
  fragments_from (part payload ∷ ps) buf final rest h =
      let size : length (buf ++ payload) ≤ length (buf ++ ((payload ++ parts ps) ++ final)) =
        omega (
          arith,
          length-append buf payload,
          length-append buf ((payload ++ parts ps) ++ final),
          length-append (payload ++ parts ps) final,
          length-append payload (parts ps),
        ) in
      let same : (buf ++ payload) ++ (parts ps ++ final) ≡ buf ++ ((payload ++ parts ps) ++ final) =
        append_assoc buf payload (parts ps ++ final)
        ∙ ap (λ l. buf ++ l) (sym (append_assoc payload (parts ps) final)) in
      let ih = fragments_from ps (buf ++ payload) final rest (rw same h) in
      rw (turn_part buf payload (exceeds_of_IsWithin max _ _ h size)) (rw same at ih)
  fragments_from (pinged payload ∷ ps) buf final rest h =
      rw (turn_pinged (some (op, buf)) payload, fragments_from ps buf final rest h)
  fragments_from (ponged payload ∷ ps) buf final rest h =
      rw (turn_ponged (some (op, buf)) payload, fragments_from ps buf final rest h)

-- A data opcode.
abbrev pub IsData : Opcode → Type 0
IsData op = (op ≡ text) ⊎ (op ≡ binary)

abbrev pub first_frame : Opcode → Bytes → Frame
first_frame op payload = record { fin = false; opcode = op; payload = payload }

turn_first :
    (from_utf8_lossy : Bytes → Bytes) (max : Option ℕ) (op : Opcode)
    (frag : Option (Opcode × Bytes)) (payload : Bytes)
    → IsData op
    → turn from_utf8_lossy max true frag (first_frame op payload)
      ≡ record { frag = some (op, payload); replies = []; emitted = []; alive = true }
unfolding turn
turn_first from_utf8_lossy max op frag payload (inl e) = rw e
turn_first from_utf8_lossy max op frag payload (inr e) = rw e

-- A text or binary message sent in fragments, with pings and pongs in between, is handed on once, put
-- together from all its fragments, if it is within `max_message_size` and the receiver takes it: a
-- binary message as it was sent, a text message as the string that `from_utf8_lossy` makes of the whole.
-- Every ping is answered with its own payload, in order, and the loop goes on with the frames that
-- follow. An earlier message that was left unfinished is forgotten.
pub read_loop-fragments :
    (from_utf8_lossy : Bytes → Bytes) (max : Option ℕ) (op : Opcode)
    (frag : Option (Opcode × Bytes)) (start final : Bytes) (ps : List Piece)
    (rest : List (Frame × Bool))
    → IsData op
    → IsWithin max (length (start ++ (parts ps ++ final)))
    → let after = read_loop from_utf8_lossy max none rest in
      (given : Bytes) × IsMessage from_utf8_lossy op (start ++ (parts ps ++ final)) given
      × (read_loop from_utf8_lossy max frag
            ((first_frame op start, true) ∷ (frames_of ps ++ ((last_frame final, true) ∷ rest)))
          ≡ record { replies = pongs ps ++ after.replies; emitted = (op, given) ∷ after.emitted })
unfolding read_loop prepend
read_loop-fragments from_utf8_lossy max op frag start final ps rest d h = (
  message from_utf8_lossy op (start ++ (parts ps ++ final)),
  message-IsMessage from_utf8_lossy op (start ++ (parts ps ++ final)),
  rw (
    turn_first from_utf8_lossy max op frag start d,
    fragments_from from_utf8_lossy max op ps start final rest h,
  ),
)
