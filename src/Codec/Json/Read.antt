-- ===== src/Codec/Json/Read.antt =====
-- The parser of crates/ferroly/src/codec/json.rs. The input is bytes; `rest` is the input from `pos` on.
-- Each error message of the source is a constructor. The loops run on fuel, `spent` without it.
pub mod Escapes
pub mod Strings
pub mod Post
use ferroly.Base.{
  ℕ, zero, suc, ◌+◌, ◌-◌, ◌*◌, ◌/◌, ◌%◌, ◌^◌, Bool, true, false, not, ◌&&◌, ◌||◌, List, [], ◌∷◌,
  ◌++◌, Option, none, some, ◌==◌, ltb, leb, if◌then◌else◌, length, drop,
}
use ferroly.Base.Bytes.{Bytes, ascii, hex_digit}
use ferroly.Codec.Value.{
  ℤ, pos, negsuc, Value, Items, Fields, null, bool, int, uint, float, str, array, object, no_items,
  item, no_fields, field,
}
use ferroly.Codec.Fmt.{FloatText}

pub data Error : Type 0 where
  unexpected_character : ℕ → Error
  expected : ℕ → Error
  invalid_number : Bytes → Error
  trailing_characters nesting_too_deep unexpected_end object_separator array_separator : Error
  unterminated_string invalid_escape expected_low_surrogate invalid_low_surrogate : Error
  invalid_surrogate_pair invalid_unicode_escape short_unicode_escape invalid_hex_digit : Error
  invalid_literal : Error

pub record Parser : Type 0 where
  pub rest : Bytes
  pub depth : ℕ

pub data Read (A : Type 0) : Type 0 where
  ok : A → Parser → Read A
  err : Error → Read A
  spent : Read A

abbrev pub M : Type 0 → Type 0
M A = Parser → Read A

infixl 5 ◌>>=◌ ◌>>◌
abbrev pub ◌>>=◌ : {A B : Type 0} → M A → (A → M B) → M B
◌>>=◌ m f p = elim (m p) [ ok a q ↦ f a q | err e ↦ err e | spent ↦ spent ]

abbrev pub ◌>>◌ : {B : Type 0} → M (Unit {0}) → M B → M B
m >> k = m >>= λ _. k

abbrev pub pure : {A : Type 0} → A → M A
pure a p = ok a p

abbrev pub fail : {A : Type 0} → Error → M A
fail e p = err e

abbrev pub max_depth : ℕ
max_depth = 128

unfoldable pub enter : M (Unit {0})
enter p =
    if ltb max_depth (p.depth + 1)
    then err nesting_too_deep
    else ok tt (record p { depth = p.depth + 1 })

unfoldable pub leave : M (Unit {0})
leave p = ok tt (record p { depth = p.depth - 1 })

abbrev pub head : Bytes → Option ℕ
head [] = none
head (b ∷ bs) = some b

abbrev pub tail : Bytes → Bytes
tail [] = []
tail (b ∷ bs) = bs

unfoldable pub peek : M (Option ℕ)
peek p = ok (head p.rest) p

unfoldable pub bump : M (Option ℕ)
bump p = ok (head p.rest) (record p { rest = tail p.rest })

unfoldable pub is_space : ℕ → Bool
is_space b = b == b' ' || (b == b'\t' || (b == b'\n' || b == b'\r'))

unfoldable pub trim : Bytes → Bytes
unfolding is_space
trim [] = []
trim (b ∷ bs) = if is_space b then trim bs else b ∷ bs

unfoldable pub skip_ws : M (Unit {0})
unfolding trim
skip_ws p = ok tt (record p { rest = trim p.rest })

-- `self.bump() == Some(b)`, and `self.peek() == Some(b)`.
unfoldable pub begins : ℕ → Bytes → Bool
begins b [] = false
begins b (c ∷ cs) = c == b

unfoldable pub expect : ℕ → M (Unit {0})
unfolding begins
expect b p = if begins b p.rest then ok tt (record p { rest = tail p.rest }) else err (expected b)

-- `if self.peek() == Some(b) { self.pos += 1; .. }`.
unfoldable pub skip_if : ℕ → M Bool
unfolding begins
skip_if b p = if begins b p.rest then ok true (record p { rest = tail p.rest }) else ok false p

-- `String::push` of a character that stands for `c`.
unfoldable pub utf8 : ℕ → Bytes
utf8 c =
    if ltb c 0x80
    then c ∷ []
    else if ltb c 0x800
    then (0xC0 + c / 64) ∷ (0x80 + c % 64) ∷ []
    else if ltb c 0x10000
    then (0xE0 + c / 4096) ∷ (0x80 + c / 64 % 64) ∷ (0x80 + c % 64) ∷ []
    else (0xF0 + c / 262144) ∷ (0x80 + c / 4096 % 64) ∷ (0x80 + c / 64 % 64) ∷ (0x80 + c % 64) ∷ []

-- `char::from_u32`.
unfoldable pub from_u32 : Error → ℕ → M Bytes
unfolding utf8
from_u32 e c = if ltb c 0xD800 || (leb 0xE000 c && ltb c 0x110000) then pure (utf8 c) else fail e

abbrev some_or : {A : Type 0} → Option A → Error → M A
some_or none e = fail e
some_or (some a) e = pure a

-- The loop of `read_hex4`, with the rounds left.
hex_loop : ℕ → ℕ → M ℕ
unfolding bump
hex_loop zero v = pure v
hex_loop (suc n) v = do
  o ← bump
  b ← some_or o short_unicode_escape
  d ← some_or (hex_digit b) invalid_hex_digit
  hex_loop n (v * 16 + d)

unfoldable pub read_hex4 : M ℕ
unfolding hex_loop
read_hex4 = hex_loop 4 0

-- The low half of a surrogate pair, and the pair.
low_surrogate : ℕ → M Bytes
unfolding read_hex4 from_u32 begins
low_surrogate high p =
    if begins b'\\' p.rest && begins b'u' (tail p.rest)
    then (read_hex4 >>= λ low.
          if leb 0xDC00 low && leb low 0xDFFF
          then from_u32 invalid_surrogate_pair (0x10000 + ((high - 0xD800) * 1024 + (low - 0xDC00)))
          else fail invalid_low_surrogate)
        (record p { rest = tail (tail p.rest) })
    else err expected_low_surrogate

unfoldable pub parse_unicode_escape : M Bytes
unfolding read_hex4 low_surrogate from_u32
parse_unicode_escape = read_hex4 >>= λ high.
    if leb 0xD800 high && leb high 0xDBFF
    then low_surrogate high
    else from_u32 invalid_unicode_escape high

-- The character of a one-letter escape.
unfoldable pub unescape : ℕ → Option ℕ
unescape e =
    if e == b'"'
    then some b'"'
    else if e == b'\\'
    then some b'\\'
    else if e == b'/'
    then some b'/'
    else if e == b'n'
    then some b'\n'
    else if e == b't'
    then some b'\t'
    else if e == b'r'
    then some b'\r'
    else if e == b'b'
    then some 0x08
    else if e == b'f'
    then some 0x0c
    else none

-- What the string loops do on a byte.
pub data Mark : Type 0 where
  quote backslash plain : Mark

unfoldable pub mark : ℕ → Mark
mark b = if b == b'"' then quote else if b == b'\\' then backslash else plain

-- The escape behind a backslash.
pub escape : M Bytes
unfolding unescape parse_unicode_escape
escape p = elim p.rest [
  | [] ↦ err invalid_escape
  | e ∷ r ↦ elim (unescape e) [
    | some b ↦ ok (b ∷ []) (record p { rest = r })
    | none ↦ if e == b'u' then parse_unicode_escape (record p { rest = r }) else err invalid_escape
  ]
]

-- The loop of `parse_string_escaped`; `s` holds what it read, the run that is not flushed included.
parse_string_escaped : ℕ → Bytes → M Bytes
unfolding escape mark
parse_string_escaped zero s p = spent
parse_string_escaped (suc fuel) s p = elim p.rest [
  | [] ↦ err unterminated_string
  | b ∷ r ↦ elim (mark b) [
    | quote ↦ ok s (record p { rest = r })
    | backslash ↦ (escape >>= λ c. parse_string_escaped fuel (s ++ c)) (record p { rest = r })
    | plain ↦ parse_string_escaped fuel (s ++ (b ∷ [])) (record p { rest = r })
  ]
]

-- The loop of `parse_string`; `s` is the input from `start` on.
string_loop : ℕ → Bytes → M Bytes
unfolding parse_string_escaped mark
string_loop zero s p = spent
string_loop (suc fuel) s p = elim p.rest [
  | [] ↦ err unterminated_string
  | b ∷ r ↦ elim (mark b) [
    | quote ↦ ok s (record p { rest = r })
    | backslash ↦ parse_string_escaped (suc fuel) s p
    | plain ↦ string_loop fuel (s ++ (b ∷ [])) (record p { rest = r })
  ]
]

unfoldable pub parse_string : M Bytes
unfolding expect string_loop
parse_string = expect b'"' >> λ p. string_loop (suc (length p.rest)) [] p
