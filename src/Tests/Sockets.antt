-- ===== src/Tests/Sockets.antt =====
-- Runs of crates/ferroly/src/ws.
use ferroly.Base.{
  false, Bool, List, ltb, if◌then◌else◌, ℕ, ◌<◌, ◌≡◌, refl, ap, sym, zero, suc, get_or, inl, true,
  [], ◌∷◌, ◌++◌, none, some, All, arith, take, drop,
}
use ferroly.Base.Bytes.{Bytes, ascii}
use ferroly.Ws.Frame.{Frame, text, encode, encode_length, apply_mask, mask_from, bits}
use ferroly.Ws.Reader.{Reader, read_exact, stream}
use ferroly.Ws.Reader.Laws.{Delivers, read_exact-Delivers}
use ferroly.Ws.Conn.{ok, read_frame}
use ferroly.Ws.Conn.RoundTrip.{read_frame-encode}
use ferroly.Ws.WriteLoop.{pong_msg, close_msg, write_loop, opcode_of, payload_of}
use ferroly.Ws.WriteLoop.Laws.{Reads, frames, up_to_close, write_loop-Reads}
use ferroly.Ws.ReadLoop.{pong_with, turn, read_loop}
use ferroly.Ws.ReadLoop.Messages.{IsMessage}
use ferroly.Ws.ReadLoop.Fragments.{
  part, pinged, first_frame, last_frame, frames_of, read_loop-fragments,
}
use ferroly.Ws.ReadLoop.Bounds.{IsBounded, read_loop-IsBounded}

abbrev key : Bytes
key = 0x37 ∷ 0xfa ∷ 0x21 ∷ 0x3d ∷ []

-- The masked "Hello" of RFC 6455, section 5.7.
abbrev hello : Bytes
hello = 0x81 ∷ 0x85 ∷ 0x37 ∷ 0xfa ∷ 0x21 ∷ 0x3d ∷ 0x7f ∷ 0x9f ∷ 0x4d ∷ 0x51 ∷ 0x58 ∷ []

encodes_hello : encode true text (ascii "Hello") (some key) ≡ hello
unfolding encode encode_length apply_mask mask_from bits
encodes_hello = refl

-- It arrives in three pieces, one of them in the buffer, and a byte of the next frame follows.
abbrev reader : Reader
reader = record {
  inner = drop 3 (take 7 hello) ∷ (drop 7 hello ++ (0x89 ∷ [])) ∷ [];
  buf = 0 ∷ take 3 hello;
  pos = 1;
}

read_frame-encode_example :
    (r' : Reader) × (read_frame (some 5) reader
      ≡ ok (record { fin = true; opcode = text; payload = ascii "Hello" }) r')
    × (stream r' ≡ 0x89 ∷ [])
read_frame-encode_example =
    read_frame-encode true text (ascii "Hello") (some key) (some 5) (0x89 ∷ []) reader
      (refl, key_small)
      (omega arith, (omega arith, (omega arith, (omega arith, (omega arith, tt))))) (omega arith)
      (omega arith) arrives
  where
    key_small : (j : ℕ) → get_or key j 0 < 256
    key_small zero = omega arith
    key_small (suc zero) = omega arith
    key_small (suc (suc zero)) = omega arith
    key_small (suc (suc (suc zero))) = omega arith
    key_small (suc (suc (suc (suc j)))) = omega arith

    arrives : stream reader ≡ encode true text (ascii "Hello") (some key) ++ (0x89 ∷ [])
    arrives = unfold stream in ap (λ l. l ++ (0x89 ∷ [])) (sym encodes_hello)

read_exact-Delivers_example : Delivers 5 [] (stream reader) (read_exact 5 reader)
read_exact-Delivers_example = read_exact-Delivers 5 reader

-- A stand-in for `from_utf8_lossy`: every byte above 127 becomes U+FFFD.
abbrev lossy : Bytes → Bytes
lossy [] = []
lossy (c ∷ s) = let rest = lossy s in if ltb c 128 then c ∷ rest else 0xEF ∷ 0xBF ∷ 0xBD ∷ rest

read_loop-fragments_example :
    (given : Bytes) × IsMessage lossy text (ascii "abcdef") given
    × (read_loop lossy (some 6) none (
          (first_frame text (ascii "ab"), true)
          ∷ (frames_of (pinged (ascii "x") ∷ part (ascii "c") ∷ [])
              ++ ((last_frame (ascii "def"), true) ∷ [])))
        ≡ record {
          replies = pong_with (ascii "x") ∷ (read_loop lossy (some 6) none []).replies;
          emitted = (text, given) ∷ (read_loop lossy (some 6) none []).emitted;
        })
read_loop-fragments_example =
    read_loop-fragments lossy (some 6) text none (ascii "ab") (ascii "def")
      (pinged (ascii "x") ∷ part (ascii "c") ∷ []) [] (inl refl) (omega arith)

-- A message of two bytes that are not UTF-8, and one that is too large.
abbrev arriving : List (Frame × Bool)
arriving =
    (first_frame text (0xFF ∷ []), true)
    ∷ (last_frame (0xFE ∷ []), true)
    ∷ (first_frame text (ascii "ab"), true)
    ∷ (last_frame (ascii "c"), true)
    ∷ []

emits_lossy :
    (read_loop lossy (some 2) none arriving).emitted
    ≡ (text, 0xEF ∷ 0xBF ∷ 0xBD ∷ 0xEF ∷ 0xBF ∷ 0xBD ∷ []) ∷ []
unfolding read_loop turn
emits_lossy = refl

read_loop-IsBounded_example :
    All (IsBounded lossy 2) (read_loop lossy (some 2) none arriving).emitted
read_loop-IsBounded_example = read_loop-IsBounded lossy 2 none arriving

-- A pong with one byte and the close that follows, in two pieces.
abbrev written : Reader
written = record { inner = (0x8A ∷ 1 ∷ []) ∷ (b'x' ∷ 0x88 ∷ 0 ∷ []) ∷ []; buf = []; pos = 0 }

written_by : stream written ≡ write_loop false ((pong_msg (ascii "x"), []) ∷ (close_msg, []) ∷ [])
unfolding stream write_loop opcode_of payload_of encode encode_length bits
written_by = refl

write_loop-Reads_example :
    Reads none written (frames (up_to_close ((pong_msg (ascii "x"), []) ∷ (close_msg, []) ∷ [])))
unfolding payload_of
write_loop-Reads_example =
    write_loop-Reads false none ((pong_msg (ascii "x"), []) ∷ (close_msg, []) ∷ []) written
      ((tt, (omega arith, tt), omega arith, tt), ((tt, tt, omega arith, tt), tt)) written_by
