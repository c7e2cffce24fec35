-- ===== src/Codec/Fmt.antt =====
-- crates/ferroly/src/codec/fmt.rs. The text of a float is the standard library's, a parameter.
pub mod Laws
use ferroly.Base.{
  ℕ, zero, suc, ◌+◌, ◌/◌, ◌%◌, Bool, true, false, ◌||◌, List, [], ◌∷◌, ◌++◌, Option, ◌==◌,
  if◌then◌else◌, any,
}
use ferroly.Base.Bytes.{Bytes, ascii}
use ferroly.Codec.Value.{ℤ, pos, negsuc}

-- What the standard library says of `f64`: `Display`, `FromStr` and `is_finite`.
pub record FloatText (F : Type 0) : Type 0 where
  pub display : F → Bytes
  pub from_str : Bytes → Option F
  pub is_finite : F → Bool

-- The loop of `write_u64`, which fills the buffer from its end. `room` bytes are free.
digits : ℕ → ℕ → Bytes → Bytes
digits zero n buf = buf
digits (suc room) n buf =
    let buf' = (b'0' + n % 10) ∷ buf in
    let rest = digits room (n / 10) buf' in if n / 10 == 0 then buf' else rest

unfoldable pub write_u64 : Bytes → ℕ → Bytes
unfolding digits
write_u64 out u = out ++ digits 20 u []

-- `unsigned_abs`.
unfoldable pub unsigned_abs : ℤ → ℕ
unsigned_abs (pos n) = n
unsigned_abs (negsuc n) = suc n

unfoldable pub write_i64 : Bytes → ℤ → Bytes
unfolding write_u64 unsigned_abs
write_i64 out (pos n) = write_u64 out n
write_i64 out (negsuc n) = write_u64 (out ++ (b'-' ∷ [])) (unsigned_abs (negsuc n))

abbrev pub is_float_mark : ℕ → Bool
is_float_mark b = b == b'.' || (b == b'e' || (b == b'E' || (b == b'n' || b == b'i')))

module _ {F : Type 0} (text : FloatText F) where
  unfoldable pub write_json_f64 : Bytes → F → Bytes
  write_json_f64 out f =
      if text.is_finite f
      then (if any is_float_mark (text.display f)
          then out ++ text.display f
          else out ++ (text.display f ++ ascii ".0"))
      else out ++ ascii "null"
