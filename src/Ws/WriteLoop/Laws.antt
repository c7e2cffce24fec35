-- ===== src/Ws/WriteLoop/Laws.antt =====
-- What the peer reads of what the write loop writes.
use mathlib.Core.List.{append-nil}
use ferroly.Base.{ℕ, ◌≡◌, ◌<◌, ◌^◌, sym, ◌∙◌, Bool, true, List, [], ◌∷◌, ◌++◌, Option, length, All}
use ferroly.Base.Bytes.{Bytes}
use ferroly.Ws.Frame.{Frame, encode}
use ferroly.Ws.Frame.Bits.{IsByte}
use ferroly.Ws.Reader.{Reader, stream}
use ferroly.Ws.Conn.{ok, read_frame}
use ferroly.Ws.Conn.RoundTrip.{IsKey, FitsIn, read_frame-encode}
use ferroly.Ws.WriteLoop.{
  Outgoing, text_msg, binary_msg, pong_msg, close_msg, opcode_of, payload_of, key_for, write_loop,
}

-- The frame of a message.
abbrev pub frame_for : Outgoing → Frame
frame_for m = record { fin = true; opcode = opcode_of m; payload = payload_of m }

-- Up to the first close, that one included.
abbrev pub up_to_close : List (Outgoing × Bytes) → List (Outgoing × Bytes)
up_to_close [] = []
up_to_close ((close_msg, key) ∷ msgs) = (close_msg, key) ∷ []
up_to_close ((text_msg t, key) ∷ msgs) = (text_msg t, key) ∷ up_to_close msgs
up_to_close ((binary_msg b, key) ∷ msgs) = (binary_msg b, key) ∷ up_to_close msgs
up_to_close ((pong_msg p, key) ∷ msgs) = (pong_msg p, key) ∷ up_to_close msgs

-- The reader returns these frames one after another and is then at the end of the stream.
abbrev pub Reads : Option ℕ → Reader → List Frame → Type 0
Reads max r [] = stream r ≡ []
Reads max r (f ∷ fs) = (r' : Reader) × (read_frame max r ≡ ok f r') × Reads max r' fs

-- The message can be read: it is made of bytes, below 2^63 of them, within the limit of the peer, and
-- its mask has four bytes.
abbrev pub IsSendable : Bool → Option ℕ → Outgoing × Bytes → Type 0
IsSendable mask max (m, key) =
    IsKey (key_for mask key)
    × All IsByte (payload_of m)
    × (length (payload_of m) < 2 ^ 63)
    × FitsIn max (length (payload_of m))

abbrev pub frames : List (Outgoing × Bytes) → List Frame
frames [] = []
frames ((m, key) ∷ msgs) = frame_for m ∷ frames msgs

module _ (mask : Bool) (max : Option ℕ) where
  -- One message in front of the rest.
  read_one :
      (m : Outgoing) (key rest : Bytes) (later : List Frame) (r : Reader)
      → IsSendable mask max (m, key)
      → stream r ≡ encode true (opcode_of m) (payload_of m) (key_for mask key) ++ rest
      → ((r' : Reader) → stream r' ≡ rest → Reads max r' later)
      → Reads max r (frame_for m ∷ later)
  read_one m key rest later r (k, bytes, short, fits) e go =
      let (r', read, left) =
        read_frame-encode true (opcode_of m) (payload_of m) (key_for mask key) max rest r k bytes
          short fits e in
      (r', read, go r' left)

-- A peer whose stream is what the write loop wrote, masked or not and however it is divided, reads
-- exactly the frames of the messages up to the first close, in their order, each whole with its opcode
-- and payload, and is then at the end of the stream; for payloads of bytes, shorter than 2^63 and
-- within the peer's `max_frame_size`, and masks of four bytes.
pub write_loop-Reads :
    (mask : Bool) (max : Option ℕ) (msgs : List (Outgoing × Bytes)) (r : Reader)
    → All (IsSendable mask max) msgs
    → stream r ≡ write_loop mask msgs
    → Reads max r (frames (up_to_close msgs))
unfolding write_loop
write_loop-Reads mask max [] r h e = e
write_loop-Reads mask max ((close_msg, key) ∷ msgs) r (h, hs) e =
    read_one mask max close_msg key [] [] r h
      (e ∙ sym (append-nil (encode true (opcode_of close_msg) [] (key_for mask key))))
      (λ r' left. left)
write_loop-Reads mask max ((text_msg t, key) ∷ msgs) r (h, hs) e =
    read_one mask max (text_msg t) key (write_loop mask msgs) _ r h e
      (λ r' left. write_loop-Reads mask max msgs r' hs left)
write_loop-Reads mask max ((binary_msg b, key) ∷ msgs) r (h, hs) e =
    read_one mask max (binary_msg b) key (write_loop mask msgs) _ r h e
      (λ r' left. write_loop-Reads mask max msgs r' hs left)
write_loop-Reads mask max ((pong_msg p, key) ∷ msgs) r (h, hs) e =
    read_one mask max (pong_msg p) key (write_loop mask msgs) _ r h e
      (λ r' left. write_loop-Reads mask max msgs r' hs left)
