-- ===== src/Ws/Frame/Bits.antt =====
-- Facts about bytes: header bits, masking, and numbers in network order.
use Prim.Native.Nat.{bit_and, bit_or, bit_xor}
use native.Mathlib.Nat.{pow-suc}
use ferroly.Base.{
  ℕ, zero, suc, ◌+◌, ◌*◌, ◌/◌, ◌%◌, ◌^◌, ◌<◌, ◌≡◌, inl, inr, refl, ap, ap₂, ◌∙◌, Bool, true, false,
  not, ◌&&◌, [], ◌∷◌, ◌++◌, Option, none, some, ltb, leb, ◌==◌, ==_iff, Bool-cases, if◌then◌else◌,
  arith, length, get_or, All, length-append,
}
use ferroly.Base.Bytes.{Bytes}
use ferroly.Ws.Frame.{
  Opcode, continuation, from_bits, bits, parse_header, to_be, from_be, from_be_acc, mask_from,
  apply_mask, encode_length, encode,
}

-- A test passed by every number below a bound, for laws that a table decides.
holds_under : (ℕ → Bool) → ℕ → Bool
holds_under test zero = true
holds_under test (suc top) = holds_under test top && test top

lookup_under : (test : ℕ → Bool) (top i : ℕ) → i < top → holds_under test top ≡ true → test i ≡ true
unfolding holds_under
lookup_under test zero i small table = absurd (omega arith)
lookup_under test (suc top) i small table = elim (Bool-cases (holds_under test top)) [
  | inr gap ↦ let clash : false ≡ true = rw gap at table in cc
  | inl lower ↦
      let here : test top ≡ true = rw lower at table in
      elim (Bool-cases (ltb i top)) [
        | inl below ↦ lookup_under test top i (ground arith) lower
        | inr last ↦ let e : i ≡ top = ground arith in rw e here
      ]
]

abbrev xor_row : ℕ → ℕ → Bool
xor_row k x = bit_xor (bit_xor x k) k == x

xor_table : holds_under (λ k. holds_under (xor_row k) 256) 256 ≡ true
unfolding holds_under
xor_table = refl

xor_twice : (k x : ℕ) → k < 256 → x < 256 → bit_xor (bit_xor x k) k ≡ x
xor_twice k x hk hx = (==_iff _ x).0 (
    lookup_under (xor_row k) 256 x hx
      (lookup_under (λ k. holds_under (xor_row k) 256) 256 k hk xor_table))

len_row : ℕ → Bool
len_row n =
    (bit_and (bit_or 0x80 n) 0x7f == n)
    && (not (bit_and (bit_or 0x80 n) 0x80 == 0))
    && ((bit_and (bit_or 0 n) 0x7f == n) && (bit_and (bit_or 0 n) 0x80 == 0))

len_table : holds_under len_row 128 ≡ true
unfolding holds_under len_row
len_table = refl

abbrev pub IsByte : ℕ → Type 0
IsByte b = b < 256

mask_from_twice :
    (key : Bytes) (i : ℕ) (payload : Bytes)
    → ((j : ℕ) → IsByte (get_or key j 0))
    → All IsByte payload
    → mask_from key i (mask_from key i payload) ≡ payload
unfolding mask_from
mask_from_twice key i [] k h = refl
mask_from_twice key i (b ∷ bs) k (h, hs) =
    ap₂ (λ (x : ℕ) (l : Bytes). x ∷ l) (xor_twice (get_or key (i % 4) 0) b (k (i % 4)) h)
      (mask_from_twice key (i + 1) bs k hs)

length-mask_from :
    (key : Bytes) (i : ℕ) (payload : Bytes) → length (mask_from key i payload) ≡ length payload
unfolding mask_from
length-mask_from key i [] = refl
length-mask_from key i (b ∷ bs) = ap suc (length-mask_from key (i + 1) bs)

from_be_acc-append :
    (acc : ℕ) (xs : Bytes) (b : ℕ) → from_be_acc acc (xs ++ (b ∷ [])) ≡ from_be_acc acc xs * 256 + b
unfolding from_be_acc
from_be_acc-append acc [] b = refl
from_be_acc-append acc (x ∷ xs) b = from_be_acc-append (acc * 256 + x) xs b

-- A number that fits is read back from its bytes.
pub from_be-to_be : (w n : ℕ) → n < 256 ^ w → from_be (to_be w n) ≡ n
unfolding from_be to_be
from_be-to_be zero n h = omega arith
from_be-to_be (suc w) n h =
    let p : 256 ^ suc w ≡ 256 ^ w * 256 = pow-suc 256 w in
    let ih = from_be-to_be w (n / 256) (omega arith) in
    from_be_acc-append 0 (to_be w (n / 256)) (n % 256) ∙ omega (arith, ih)

pub length-to_be : (w n : ℕ) → length (to_be w n) ≡ w
unfolding to_be
length-to_be zero n = refl
length-to_be (suc w) n =
    omega (arith, length-append (to_be w (n / 256)) (n % 256 ∷ []), length-to_be w (n / 256))

pub apply_mask_twice :
    (key payload : Bytes)
    → ((j : ℕ) → IsByte (get_or key j 0))
    → All IsByte payload
    → apply_mask key (apply_mask key payload) ≡ payload
unfolding apply_mask
apply_mask_twice key payload k h = mask_from_twice key 0 payload k h

pub length-apply_mask : (key payload : Bytes) → length (apply_mask key payload) ≡ length payload
unfolding apply_mask
length-apply_mask key payload = length-mask_from key 0 payload

-- The second header byte for the length marker `n`.
abbrev pub second : Bool → ℕ → ℕ
second masked n = bit_or (if masked then 0x80 else 0) n

second_len : (masked : Bool) (n : ℕ) → n < 128 → bit_and (second masked n) 0x7f ≡ n
unfolding len_row
second_len true n h = let row = lookup_under len_row 128 n h len_table in ground arith
second_len false n h = let row = lookup_under len_row 128 n h len_table in ground arith

second_masked :
    (masked : Bool) (n : ℕ) → n < 128 → not (bit_and (second masked n) 0x80 == 0) ≡ masked
unfolding len_row
second_masked true n h = let row = lookup_under len_row 128 n h len_table in ground arith
second_masked false n h = let row = lookup_under len_row 128 n h len_table in ground arith

-- The first header byte.
abbrev pub first : Bool → Opcode → ℕ
first fin opcode = bit_or (if fin then 0x80 else 0) (bits opcode)

first_opcode :
    (fin : Bool) (opcode : Opcode) → from_bits (bit_and (first fin opcode) 0x0f) ≡ some opcode
unfolding from_bits bits
first_opcode true continuation = refl
first_opcode true _ = refl
first_opcode false continuation = refl
first_opcode false _ = refl

first_fin : (fin : Bool) (opcode : Opcode) → not (bit_and (first fin opcode) 0x80 == 0) ≡ fin
unfolding bits
first_fin true continuation = refl
first_fin true _ = refl
first_fin false continuation = refl
first_fin false _ = refl

parse_header_of_some :
    (b0 b1 : ℕ) (opcode : Opcode)
    → from_bits (bit_and b0 0x0f) ≡ some opcode
    → parse_header b0 b1
      ≡ some (record {
        fin = not (bit_and b0 0x80 == 0);
        opcode = opcode;
        masked = not (bit_and b1 0x80 == 0);
        len7 = bit_and b1 0x7f;
      })
unfolding parse_header
parse_header_of_some b0 b1 opcode e = rw (e, parse_header)

pub parse_header-first :
    (fin : Bool) (opcode : Opcode) (masked : Bool) (n : ℕ)
    → n < 128
    → parse_header (first fin opcode) (second masked n)
      ≡ some (record { fin = fin; opcode = opcode; masked = masked; len7 = n })
parse_header-first fin opcode masked n h =
    parse_header_of_some (first fin opcode) (second masked n) opcode (first_opcode fin opcode)
    ∙ (λ i. some (record {
      fin = first_fin fin opcode i;
      opcode = opcode;
      masked = second_masked masked n h i;
      len7 = second_len masked n h i;
    }))

-- The length marker of the second header byte, and the bytes of the length behind it.
abbrev pub marker : ℕ → ℕ
marker len = if ltb len 126 then len else if leb len 65535 then 126 else 127

abbrev pub extended : ℕ → Bytes
extended len = if ltb len 126 then [] else if leb len 65535 then to_be 2 len else to_be 8 len

pub marker_small : (len : ℕ) → marker len < 128
marker_small len = ground arith

encode_length_lem : (b len : ℕ) → encode_length b len ≡ bit_or b (marker len) ∷ extended len
unfolding encode_length
encode_length_lem b len = elim (Bool-cases (ltb len 126)) [
  | inl small ↦ rw small
  | inr large ↦ elim (Bool-cases (leb len 65535)) [
    | inl two ↦ rw (large, two)
    | inr eight ↦ rw (large, eight)
  ]
]

abbrev pub is_masked : Option Bytes → Bool
is_masked none = false
is_masked (some key) = true

-- The masking key and the payload as they are sent.
abbrev pub body : Option Bytes → Bytes → Bytes
body none payload = payload
body (some key) payload = key ++ apply_mask key payload

-- The layout of an encoded frame.
pub encode_lem :
    (fin : Bool) (opcode : Opcode) (payload : Bytes) (key : Option Bytes)
    → encode fin opcode payload key
      ≡ first fin opcode
        ∷ second (is_masked key) (marker (length payload))
        ∷ (extended (length payload) ++ body key payload)
unfolding encode
encode_lem fin opcode payload none =
    ap (λ l. first fin opcode ∷ (l ++ payload)) (encode_length_lem 0 (length payload))
encode_lem fin opcode payload (some key) =
    ap (λ l. first fin opcode ∷ (l ++ (key ++ apply_mask key payload)))
      (encode_length_lem 0x80 (length payload))
