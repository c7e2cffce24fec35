-- ===== src/Ws/Conn.antt =====
-- `read_frame` of crates/ferroly/src/ws/conn.rs, with `usize` of 64 bits. `max_frame_size`, which the loop only
-- reads, is the argument `max`.
pub mod RoundTrip
use ferroly.Base.{
  ℕ, zero, suc, ◌+◌, ◌≤◌, ◌<◌, ◌^◌, ◌-◌, ◌≡◌, Bool, true, false, not, ◌&&◌, ◌||◌, List, [], ◌∷◌,
  ◌++◌, Option, none, some, ltb, leb, ◌==◌, if◌then◌else◌, length, get_or,
}
use ferroly.Base.Bytes.{Bytes}
use ferroly.Ws.Frame.{
  Opcode, continuation, text, binary, close, ping, pong, Frame, Header, parse_header, from_be,
  apply_mask, encode,
}
use ferroly.Ws.Reader.{Reader, read_exact}

pub data IoError : Type 0 where
  unexpected_eof bad_opcode length_exceeds_maximum frame_exceeds_max : IoError

pub data Read (A : Type 0) : Type 0 where
  ok : A → Reader → Read A
  err : IoError → Read A

-- A step that reads, and then goes on with what it read.
abbrev pub M : Type 0 → Type 0
M A = Reader → Read A

infixl 5 ◌>>=◌
abbrev pub ◌>>=◌ : {A B : Type 0} → M A → (A → M B) → M B
◌>>=◌ m f r = elim (m r) [ ok a r' ↦ f a r' | err e ↦ err e ]

pure : {A : Type 0} → A → M A
pure a r = ok a r

fail : {A : Type 0} → IoError → M A
fail e r = err e

read : ℕ → M Bytes
read n r = elim (read_exact n r) [ none ↦ err unexpected_eof | some (bs, r') ↦ ok bs r' ]

header : Bytes → M Header
unfolding pure fail
header hdr = elim (parse_header (get_or hdr 0 0) (get_or hdr 1 0)) [
  | none ↦ fail bad_opcode
  | some h ↦ pure h
]

-- The payload length behind the length marker.
short_len : M ℕ
short_len = do b ← read 2; pure (from_be b)

long_len : M ℕ
long_len = do
  b ← read 8
  if ltb (2 ^ 63 - 1) (from_be b) then fail length_exceeds_maximum else pure (from_be b)

payload_len : ℕ → M ℕ
unfolding short_len long_len read pure fail
payload_len len7 = if len7 == 126 then short_len else if len7 == 127 then long_len else pure len7

abbrev is_over : Option ℕ → ℕ → Bool
is_over none len = false
is_over (some max) len = ltb max len

check_len : Option ℕ → ℕ → M (Unit {0})
unfolding pure fail
check_len max len = if is_over max len then fail frame_exceeds_max else pure tt

mask_key : Bool → M (Option Bytes)
unfolding read pure
mask_key masked = if masked then (read 4 >>= λ k. pure (some k)) else pure none

unmask : Option Bytes → Bytes → Bytes
unmask none payload = payload
unmask (some key) payload = apply_mask key payload

unfoldable pub read_frame : Option ℕ → M Frame
unfolding header payload_len check_len mask_key unmask read pure fail
read_frame max = do
  hdr ← read 2
  h ← header hdr
  len ← payload_len h.len7
  _ ← check_len max len
  key ← mask_key h.masked
  payload ← read len
  pure (record { fin = h.fin; opcode = h.opcode; payload = unmask key payload })
