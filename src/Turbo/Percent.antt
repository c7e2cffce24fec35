-- ===== src/Turbo/Percent.antt =====
-- `percent_decode` of crates/ferroly/src/turbo/mod.rs. Strings are their bytes in UTF-8, and the standard
-- library's `String::from_utf8_lossy` is a parameter.
pub mod Laws
use ferroly.Base.{
  ℕ, ◌+◌, ◌-◌, ◌*◌, Bool, true, false, ◌&&◌, List, [], ◌∷◌, Option, none, some, ◌==◌, leb,
  if◌then◌else◌,
}
use ferroly.Base.Bytes.{Bytes, hex_digit}

abbrev pair : Option ℕ → Option ℕ → Option ℕ
pair none o = none
pair (some h) none = none
pair (some h) (some l) = some (h * 16 + l)

-- `u8::from_str_radix(h, 16)` of two bytes: a leading `+` is a sign, and two digits stay below 256.
unfoldable pub from_hex : ℕ → ℕ → Option ℕ
unfolding hex_digit
from_hex a b = if a == b'+' then hex_digit b else pair (hex_digit a) (hex_digit b)

-- The loop, from the byte at `i` on.
unfoldable pub decode_bytes : Bytes → Bytes
unfolding from_hex
decode_bytes [] = []
decode_bytes (c ∷ []) = (if c == b'+' then b' ' else c) ∷ []
decode_bytes (c ∷ a ∷ []) = (if c == b'+' then b' ' else c) ∷ decode_bytes (a ∷ [])
decode_bytes (c ∷ a ∷ b ∷ s) =
    let one = decode_bytes (a ∷ b ∷ s) in
    let skip = decode_bytes s in
    if c == b'+'
    then b' ' ∷ one
    else if c == b'%'
    then elim (from_hex a b) [ none ↦ c ∷ one | some v ↦ v ∷ skip ]
    else c ∷ one

unfoldable pub percent_decode : (Bytes → Bytes) → Bytes → Bytes
unfolding decode_bytes
percent_decode from_utf8_lossy s = from_utf8_lossy (decode_bytes s)
