-- ===== src/Codec/Json/Read/Escapes.antt =====
-- The escapes of the encoder, as the parser undoes them.
use ferroly.Base.{
  ℕ, suc, ◌+◌, ◌*◌, ◌/◌, ◌%◌, ◌<◌, ◌≡◌, refl, ap, sym, subst, ◌∙◌, Bool, true, false, [], ◌∷◌, ◌++◌,
  Option, none, some, ◌==◌, ==_iff, ltb, ltb→lt, if◌then◌else◌, arith,
}
use ferroly.Base.Bytes.{Bytes, hex_digit}
use ferroly.Codec.Json.Write.{lower_hex, escape_of}
use ferroly.Codec.Json.Read.{
  Parser, ok, M, ◌>>=◌, plain, mark, escape, unescape, hex_loop, read_hex4, from_u32, utf8, bump,
  parse_unicode_escape,
}

abbrev pub at_rest : Bytes → ℕ → Parser
at_rest bs d = record { rest = bs; depth = d }

pub bind_ok :
    {A B : Type 0} (m : M A) (f : A → M B) (p q : Parser) (a : A)
    → m p ≡ ok a q
    → (m >>= f) p ≡ f a q
bind_ok m f p q a e = rw (◌>>=◌, e) refl

hex_digit-lower_hex : (k : ℕ) → k < 16 → hex_digit (lower_hex k) ≡ some k
unfolding hex_digit lower_hex
hex_digit-lower_hex k h = ground arith

hex_loop-lower_hex :
    (n v k : ℕ) (more : Bytes) (d : ℕ)
    → k < 16
    → hex_loop (suc n) v (at_rest (lower_hex k ∷ more) d) ≡ hex_loop n (v * 16 + k) (at_rest more d)
unfolding hex_loop bump
hex_loop-lower_hex n v k more d h = rw (hex_digit-lower_hex k h) refl

hex_loop-zero :
    (v b : ℕ) (more : Bytes) (d : ℕ) → v ≡ b → hex_loop 0 v (at_rest more d) ≡ ok b (at_rest more d)
unfolding hex_loop
hex_loop-zero v b more d e = ap (λ n. ok n (at_rest more d)) e

abbrev four : ℕ → Bytes
four b =
    lower_hex (b / 4096 % 16)
    ∷ lower_hex (b / 256 % 16)
    ∷ lower_hex (b / 16 % 16)
    ∷ lower_hex (b % 16)
    ∷ []

-- `read_hex4` on the four digits of a byte.
read_hex4-lower_hex :
    (b : ℕ) (more : Bytes) (d : ℕ)
    → b < 0x20
    → read_hex4 (at_rest (four b ++ more) d) ≡ ok b (at_rest more d)
unfolding read_hex4
read_hex4-lower_hex b more d h =
    hex_loop-lower_hex 3 0 (b / 4096 % 16) _ d (omega arith)
    ∙ hex_loop-lower_hex 2 _ (b / 256 % 16) _ d (omega arith)
    ∙ hex_loop-lower_hex 1 _ (b / 16 % 16) _ d (omega arith)
    ∙ hex_loop-lower_hex 0 _ (b % 16) _ d (omega arith)
    ∙ hex_loop-zero _ b more d (omega arith)

parse_unicode_escape-read_hex4 :
    (p q : Parser) (b : ℕ)
    → read_hex4 p ≡ ok b q
    → b < 0x20
    → parse_unicode_escape p ≡ ok (b ∷ []) q
unfolding parse_unicode_escape from_u32 utf8
parse_unicode_escape-read_hex4 p q b e h = bind_ok read_hex4 _ p q b e ∙ ground arith

-- The escapes that `escape` undoes.
unfoldable pub Undone : ℕ → Bytes → Type 0
Undone b e =
    (r : Bytes) × (e ≡ b'\\' ∷ r)
    × ((more : Bytes) (d : ℕ) → escape (at_rest (r ++ more) d) ≡ ok (b ∷ []) (at_rest more d))

if-some :
    (P : Bytes → Type 0) (t : Bool) {x e : Bytes} {rest : Option Bytes}
    → (t ≡ true → P x)
    → (rest ≡ some e → P e)
    → (if t then some x else rest) ≡ some e
    → P e
if-some P true {x = x} {e = e} here there found = let same : x ≡ e = cc in subst P same (here refl)
if-some P false here there found = there found

-- One letter stands behind the backslash.
letter : (b c k : ℕ) → unescape k ≡ some c → (b == c) ≡ true → Undone b (b'\\' ∷ k ∷ [])
unfolding Undone escape
letter b c k known is = (
  k ∷ [],
  refl,
  λ more d. rw (known, escape) (ap (λ n. ok (n ∷ []) (at_rest more d)) (sym ((==_iff b c).0 is))),
)

pub escape_of-escape : (b : ℕ) (e : Bytes) → escape_of b ≡ some e → Undone b e
unfolding escape_of Undone escape unescape
escape_of-escape b e = if-some (Undone b) (b == b'"') (letter b b'"' b'"' refl) (
    if-some (Undone b) (b == b'\\') (letter b b'\\' b'\\' refl) (
      if-some (Undone b) (b == b'\n') (letter b b'\n' b'n' refl) (
        if-some (Undone b) (b == b'\r') (letter b b'\r' b'r' refl) (
          if-some (Undone b) (b == b'\t') (letter b b'\t' b't' refl) (
            if-some (Undone b) (b == 0x08) (letter b 0x08 b'b' refl) (
              if-some (Undone b) (b == 0x0c) (letter b 0x0c b'f' refl) (
                if-some (Undone b) (ltb b 0x20)
                  (λ low. (
                    b'u' ∷ four b,
                    refl,
                    λ more d.
                        parse_unicode_escape-read_hex4 (at_rest (four b ++ more) d) (at_rest more d)
                          b (read_hex4-lower_hex b more d (ltb→lt b 0x20 low)) (ltb→lt b 0x20 low),
                  ))
                  (λ found. cc))))))))

-- A byte that `write_string` copies is one that the string loops copy.
pub escape_of-mark : (b : ℕ) → escape_of b ≡ none → mark b ≡ plain
unfolding escape_of mark
escape_of-mark b clean = ground arith
