-- ===== src/Ws/Frame.antt =====
-- crates/ferroly/src/ws/frame.rs. A byte is a number below 256; `rand::fill` is the argument `key`.
pub mod Bits
use Prim.Native.Nat.{bit_and, bit_or, bit_xor}
use ferroly.Base.{
  ℕ, zero, suc, ◌+◌, ◌*◌, ◌/◌, ◌%◌, ◌^◌, Bool, true, false, not, List, [], ◌∷◌, ◌++◌, Option, none,
  some, ltb, leb, ◌==◌, if◌then◌else◌, length, get_or,
}
use ferroly.Base.Bytes.{Bytes}

pub data Opcode : Type 0 where
  continuation text binary close ping pong : Opcode

unfoldable pub from_bits : ℕ → Option Opcode
from_bits b =
    if b == 0x0
    then some continuation
    else if b == 0x1
    then some text
    else if b == 0x2
    then some binary
    else if b == 0x8
    then some close
    else if b == 0x9
    then some ping
    else if b == 0xA
    then some pong
    else none

unfoldable pub bits : Opcode → ℕ
bits continuation = 0x0
bits text = 0x1
bits binary = 0x2
bits close = 0x8
bits ping = 0x9
bits pong = 0xA

pub record Frame : Type 0 where
  pub fin : Bool
  pub opcode : Opcode
  pub payload : Bytes

-- The result of `parse_header`.
pub record Header : Type 0 where
  pub fin : Bool
  pub opcode : Opcode
  pub masked : Bool
  pub len7 : ℕ

unfoldable pub parse_header : ℕ → ℕ → Option Header
parse_header b0 b1 = elim (from_bits (bit_and b0 0x0f)) [
  | none ↦ none
  | some opcode ↦ some (record {
    fin = not (bit_and b0 0x80 == 0);
    opcode = opcode;
    masked = not (bit_and b1 0x80 == 0);
    len7 = bit_and b1 0x7f;
  })
]

-- `to_be_bytes` of a `w`-byte number, and `from_be_bytes`.
unfoldable pub to_be : ℕ → ℕ → Bytes
to_be zero n = []
to_be (suc w) n = to_be w (n / 256) ++ (n % 256 ∷ [])

from_be_acc : ℕ → Bytes → ℕ
from_be_acc acc [] = acc
from_be_acc acc (b ∷ bs) = from_be_acc (acc * 256 + b) bs

unfoldable pub from_be : Bytes → ℕ
unfolding from_be_acc
from_be bs = from_be_acc 0 bs

-- The loop of `apply_mask`, from index `i` on; `key` has four bytes.
unfoldable pub mask_from : Bytes → ℕ → Bytes → Bytes
mask_from key i [] = []
mask_from key i (b ∷ bs) = bit_xor b (get_or key (i % 4) 0) ∷ mask_from key (i + 1) bs

unfoldable pub apply_mask : Bytes → Bytes → Bytes
unfolding mask_from
apply_mask key payload = mask_from key 0 payload

-- The length field with its mask bit; a length is at most `usize::MAX`, so the casts keep it.
unfoldable pub encode_length : ℕ → ℕ → Bytes
encode_length mask_bit len =
    if ltb len 126
    then bit_or mask_bit len ∷ []
    else if leb len 65535
    then bit_or mask_bit 126 ∷ to_be 2 len
    else bit_or mask_bit 127 ∷ to_be 8 len

-- `key` is `none` for a frame that is not masked.
unfoldable pub encode : Bool → Opcode → Bytes → Option Bytes → Bytes
unfolding encode_length
encode fin opcode payload none =
    bit_or (if fin then 0x80 else 0) (bits opcode) ∷ (encode_length 0 (length payload) ++ payload)
encode fin opcode payload (some key) =
    bit_or (if fin then 0x80 else 0) (bits opcode)
    ∷ (encode_length 0x80 (length payload) ++ (key ++ apply_mask key payload))
