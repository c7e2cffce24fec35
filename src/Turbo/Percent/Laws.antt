-- ===== src/Turbo/Percent/Laws.antt =====
-- `percent_decode` on percent-encoded bytes.
use ferroly.Base.{
  ℕ, ◌+◌, ◌-◌, ◌/◌, ◌%◌, ◌<◌, ◌≡◌, ◌≢◌, inl, inr, refl, ap, ◌∙◌, Bool, true, false, [], ◌∷◌, some,
  ◌==◌, ltb, if◌then◌else◌, arith, Bool-cases, All,
}
use ferroly.Base.Bytes.{Bytes, hex_digit}
use ferroly.Turbo.Percent.{from_hex, decode_bytes, percent_decode}

-- The upper-case digit of a number below 16.
unfoldable pub to_hex : ℕ → ℕ
to_hex n = if ltb n 10 then n + b'0' else n - 10 + b'A'

-- Percent-encoding of the bytes that `keep` does not keep.
unfoldable pub percent_encode : (ℕ → Bool) → Bytes → Bytes
unfolding to_hex
percent_encode keep [] = []
percent_encode keep (b ∷ bs) =
    let rest = percent_encode keep bs in
    if keep b then b ∷ rest else b'%' ∷ to_hex (b / 16) ∷ to_hex (b % 16) ∷ rest

hex_digit-to_hex : (n : ℕ) → n < 16 → hex_digit (to_hex n) ≡ some n
unfolding hex_digit to_hex
hex_digit-to_hex n h = ground arith

to_hex_ne_plus : (n : ℕ) → (to_hex n == b'+') ≡ false
unfolding to_hex
to_hex_ne_plus n = ground arith

from_hex-to_hex : (b : ℕ) → b < 256 → from_hex (to_hex (b / 16)) (to_hex (b % 16)) ≡ some b
from_hex-to_hex b h =
    unfold from_hex in
    rw
      (
        to_hex_ne_plus (b / 16),
        hex_digit-to_hex (b / 16) (omega arith),
        hex_digit-to_hex (b % 16) (omega arith),
      )
      (ap some (omega arith))

decode_bytes_plain :
    (c : ℕ) (s : Bytes) → c ≢ b'+' → c ≢ b'%' → decode_bytes (c ∷ s) ≡ c ∷ decode_bytes s
unfolding decode_bytes
decode_bytes_plain c [] p q = ground arith
decode_bytes_plain c (a ∷ []) p q = ground arith
decode_bytes_plain c (a ∷ b ∷ s) p q =
    let e : (c == b'+') ≡ false = ground arith in
    let f : (c == b'%') ≡ false = ground arith in rw (e, f)

decode_bytes_escape :
    (a b v : ℕ) (s : Bytes)
    → from_hex a b ≡ some v
    → decode_bytes (b'%' ∷ a ∷ b ∷ s) ≡ v ∷ decode_bytes s
unfolding decode_bytes
decode_bytes_escape a b v s e = rw (e, decode_bytes)

decode_bytes-encode :
    (keep : ℕ → Bool) (s : Bytes)
    → keep b'+' ≡ false
    → keep b'%' ≡ false
    → All (λ b. b < 256) s
    → decode_bytes (percent_encode keep s) ≡ s
unfolding percent_encode
decode_bytes-encode keep [] p q h = unfold decode_bytes in refl
decode_bytes-encode keep (b ∷ bs) p q (h, hs) = elim (Bool-cases (keep b)) [
  | inl kept ↦ rw kept (
      decode_bytes_plain b (percent_encode keep bs) (kept_ne keep b b'+' kept p)
        (kept_ne keep b b'%' kept q)
      ∙ ap (λ l. b ∷ l) (decode_bytes-encode keep bs p q hs))
  | inr escaped ↦ rw escaped (
      decode_bytes_escape (to_hex (b / 16)) (to_hex (b % 16)) b (percent_encode keep bs)
        (from_hex-to_hex b h)
      ∙ ap (λ l. b ∷ l) (decode_bytes-encode keep bs p q hs))
]
  where
    kept_ne : (keep : ℕ → Bool) (b c : ℕ) → keep b ≡ true → keep c ≡ false → b ≢ c
    kept_ne keep b c k n e = let k' : keep c ≡ true = rw e at k in cc

-- Decoding turns the percent-encoding of any bytes into the string that `from_utf8_lossy` makes of them,
-- whichever bytes the encoder leaves as they are, as long as it escapes `+` and `%`.
pub percent_decode-encode :
    (from_utf8_lossy : Bytes → Bytes) (keep : ℕ → Bool) (s : Bytes)
    → keep b'+' ≡ false
    → keep b'%' ≡ false
    → All (λ b. b < 256) s
    → percent_decode from_utf8_lossy (percent_encode keep s) ≡ from_utf8_lossy s
unfolding percent_decode
percent_decode-encode from_utf8_lossy keep s p q h =
    ap from_utf8_lossy (decode_bytes-encode keep s p q h)
