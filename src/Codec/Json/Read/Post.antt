-- ===== src/Codec/Json/Read/Post.antt =====
-- What the steps of the parser leave behind: results, with the input that is left.
use ferroly.Base.{
  ℕ, zero, suc, ◌+◌, ◌-◌, ◌≤◌, ◌<◌, ◌≡◌, inl, inr, refl, ◌∙◌, Bool, true, false, [], ◌∷◌, ◌++◌,
  Option, none, some, ◌==◌, if◌then◌else◌, Bool-cases, length, arith, ltb, leb, ◌&&◌, ◌||◌, ◌*◌,
}
use ferroly.Base.Bytes.{Bytes, hex_digit}
use ferroly.Codec.Json.Read.{
  Parser, Read, ok, err, spent, Error, M, ◌>>=◌, pure, fail, tail, bump, is_space, trim, skip_ws,
  begins, expect, skip_if, utf8, from_u32, some_or, hex_loop, read_hex4, low_surrogate,
  parse_unicode_escape, Mark, quote, backslash, plain, mark, escape, parse_string_escaped,
  string_loop, parse_string, short_unicode_escape, invalid_hex_digit, expected_low_surrogate,
  invalid_low_surrogate, invalid_surrogate_pair, invalid_unicode_escape, invalid_escape,
}

module _ {A : Type 0} where
  -- A step that comes to an end, with a result as told or with an error.
  abbrev pub Post : (A → Parser → Type 0) → Read A → Type 0
  Post P (ok a q) = P a q
  Post P (err e) = Unit
  Post P spent = ⊥

  pub Post-map :
      (P Q : A → Parser → Type 0) (r : Read A)
      → ((a : A) (q : Parser) → P a q → Q a q)
      → Post P r
      → Post Q r
  Post-map P Q (ok a q) f h = f a q h
  Post-map P Q (err e) f h = tt
  Post-map P Q spent f h = h

-- `k` bytes are read at least.
abbrev pub Reads : {A : Type 0} → ℕ → Parser → A → Parser → Type 0
Reads k p a q = (length q.rest + k ≤ length p.rest) × (q.depth ≡ p.depth)

module _ {A B : Type 0} (P : A → Parser → Type 0) (Q : B → Parser → Type 0) where
  then_Post :
      (r : Read A) (f : A → M B)
      → Post P r
      → ((a : A) (q : Parser) → P a q → Post Q (f a q))
      → Post Q (elim r [ ok a q ↦ f a q | err e ↦ err e | spent ↦ spent ])
  then_Post (ok a q) f h k = k a q h
  then_Post (err e) f h k = tt
  then_Post spent f h k = h

  pub Post-bind :
      (m : M A) (f : A → M B) (p : Parser)
      → Post P (m p)
      → ((a : A) (q : Parser) → P a q → Post Q (f a q))
      → Post Q ((m >>= f) p)
  Post-bind m f p h k = then_Post (m p) f h k

-- A step, and what comes behind it, each reading on.
pub Reads-bind :
    {A B : Type 0} (j k : ℕ) (m : M A) (f : A → M B) (p : Parser)
    → Post (Reads j p) (m p)
    → ((a : A) (q : Parser) → Reads j p a q → Post (Reads k q) (f a q))
    → Post (Reads (j + k) p) ((m >>= f) p)
Reads-bind j k m f p h g = Post-bind (Reads j p) (Reads (j + k) p) m f p h (λ a q r.
    Post-map (Reads k q) (Reads (j + k) p) (f a q) (λ b s t. (omega (arith, r.0, t.0), t.1 ∙ r.1))
      (g a q r))

trim-length : (bs : Bytes) → length (trim bs) ≤ length bs
unfolding trim
trim-length [] = omega arith
trim-length (b ∷ bs) = elim (Bool-cases (is_space b)) [
  | inl space ↦ rw space (omega (arith, trim-length bs))
  | inr other ↦ rw other (omega arith)
]

tail-length : (bs : Bytes) → length (tail bs) ≤ length bs
tail-length [] = omega arith
tail-length (b ∷ bs) = omega arith

module _ (p : Parser) where
  pub skip_ws-Reads : Post (Reads 0 p) (skip_ws p)
  unfolding skip_ws
  skip_ws-Reads = (omega (arith, trim-length p.rest), refl)

  bump-Reads : Post (Reads 0 p) (bump p)
  unfolding bump
  bump-Reads = (omega (arith, tail-length p.rest), refl)

  some_or-Reads : {A : Type 0} (o : Option A) (e : Error) → Post (Reads 0 p) (some_or o e p)
  some_or-Reads none e = tt
  some_or-Reads (some a) e = (omega arith, refl)

abbrev on : Bytes → ℕ → Parser
on bs d = record { rest = bs; depth = d }

pub expect-Reads : (c : ℕ) (bs : Bytes) (d : ℕ) → Post (Reads 1 (on bs d)) (expect c (on bs d))
unfolding expect begins
expect-Reads c [] d = tt
expect-Reads c (b ∷ bs) d = elim (Bool-cases (b == c)) [
  | inl same ↦ rw same (omega arith, refl)
  | inr other ↦ rw other tt
]

pub skip_if-Reads : (c : ℕ) (bs : Bytes) (d : ℕ) → Post (Reads 0 (on bs d)) (skip_if c (on bs d))
unfolding skip_if begins
skip_if-Reads c [] d = (omega arith, refl)
skip_if-Reads c (b ∷ bs) d = elim (Bool-cases (b == c)) [
  | inl same ↦ rw same (omega arith, refl)
  | inr other ↦ rw other (omega arith, refl)
]

pub if_Read :
    {A : Type 0} (P : A → Parser → Type 0) (t : Bool) (r s : Read A)
    → Post P r
    → Post P s
    → Post P (if t then r else s)
if_Read P true r s h k = h
if_Read P false r s h k = k

pub if_Post :
    {A : Type 0} (P : A → Parser → Type 0) (t : Bool) (f g : M A) (p : Parser)
    → Post P (f p)
    → Post P (g p)
    → Post P ((if t then f else g) p)
if_Post P true f g p h k = h
if_Post P false f g p h k = k

from_u32-Reads : (e : Error) (c : ℕ) (p : Parser) → Post (Reads 0 p) (from_u32 e c p)
unfolding from_u32
from_u32-Reads e c p =
    if_Post (Reads 0 p) (ltb c 0xD800 || (leb 0xE000 c && ltb c 0x110000)) (pure (utf8 c)) (fail e)
      p (omega arith, refl) tt

hex_loop-Reads : (n v : ℕ) (p : Parser) → Post (Reads 0 p) (hex_loop n v p)
unfolding hex_loop
hex_loop-Reads zero v p = (omega arith, refl)
hex_loop-Reads (suc n) v p =
    let on_digit : ℕ → M ℕ = λ d. hex_loop n (v * 16 + d) in
    let on_byte : ℕ → M ℕ = λ b. some_or (hex_digit b) invalid_hex_digit >>= on_digit in
    let on_bump : Option ℕ → M ℕ = λ o. some_or o short_unicode_escape >>= on_byte in
    Reads-bind 0 0 bump on_bump p (bump-Reads p) (λ o q _.
      Reads-bind 0 0 (some_or o short_unicode_escape) on_byte q
        (some_or-Reads q o short_unicode_escape)
        (λ b q _.
          Reads-bind 0 0 (some_or (hex_digit b) invalid_hex_digit) on_digit q
            (some_or-Reads q (hex_digit b) invalid_hex_digit)
            (λ d q _. hex_loop-Reads n (v * 16 + d) q)))

read_hex4-Reads : (p : Parser) → Post (Reads 0 p) (read_hex4 p)
unfolding read_hex4
read_hex4-Reads p = hex_loop-Reads 4 0 p

low_surrogate-Reads : (high : ℕ) (p : Parser) → Post (Reads 0 p) (low_surrogate high p)
unfolding low_surrogate
low_surrogate-Reads high p =
    if_Read (Reads 0 p) (begins b'\\' p.rest && begins b'u' (tail p.rest)) (pair q)
      (err expected_low_surrogate)
      (Post-map (Reads 0 q) (Reads 0 p) (pair q)
        (λ a r h. (omega (arith, h.0, tail-length p.rest, tail-length (tail p.rest)), h.1))
        (Reads-bind 0 0 read_hex4 low_half q (read_hex4-Reads q) (λ low r _.
          if_Post (Reads 0 r) (leb 0xDC00 low && leb low 0xDFFF) (joined low)
            (fail invalid_low_surrogate) r
            (from_u32-Reads invalid_surrogate_pair
              (0x10000 + ((high - 0xD800) * 1024 + (low - 0xDC00))) r)
            tt)))
      tt
  where
    q : Parser
    q = on (tail (tail p.rest)) p.depth

    joined : ℕ → M Bytes
    joined low =
        from_u32 invalid_surrogate_pair (0x10000 + ((high - 0xD800) * 1024 + (low - 0xDC00)))

    low_half : ℕ → M Bytes
    low_half low =
        if leb 0xDC00 low && leb low 0xDFFF then joined low else fail invalid_low_surrogate

    pair : M Bytes
    pair = read_hex4 >>= low_half

parse_unicode_escape-Reads : (p : Parser) → Post (Reads 0 p) (parse_unicode_escape p)
unfolding parse_unicode_escape
parse_unicode_escape-Reads p = Reads-bind 0 0 read_hex4 _ p (read_hex4-Reads p) (λ high q _.
    if_Post (Reads 0 q) (leb 0xD800 high && leb high 0xDBFF) (low_surrogate high)
      (from_u32 invalid_unicode_escape high) q (low_surrogate-Reads high q)
      (from_u32-Reads invalid_unicode_escape high q))

escape_Post :
    (P : Bytes → Parser → Type 0) (o : Option ℕ) (t : Bool) (q : Parser) (u : Read Bytes)
    → ((s : Bytes) → P s q)
    → Post P u
    → Post P (elim o [ some b ↦ ok (b ∷ []) q | none ↦ if t then u else err invalid_escape ])
escape_Post P none true q u h k = k
escape_Post P none false q u h k = tt
escape_Post P (some b) t q u h k = h (b ∷ [])

escape-Reads : (bs : Bytes) (d : ℕ) → Post (Reads 0 (on bs d)) (escape (on bs d))
unfolding escape
escape-Reads [] d = tt
escape-Reads (e ∷ bs) d =
    escape_Post (Reads 0 (on (e ∷ bs) d)) _ (e == b'u') (on bs d) (parse_unicode_escape (on bs d))
      (λ s. (omega arith, refl))
      (Post-map (Reads 0 (on bs d)) (Reads 0 (on (e ∷ bs) d)) (parse_unicode_escape (on bs d))
        (λ a r h. (omega (arith, h.0), h.1)) (parse_unicode_escape-Reads (on bs d)))

mark_Post :
    (P : Bytes → Parser → Type 0) (m : Mark) (x y z : Read Bytes)
    → Post P x
    → Post P y
    → Post P z
    → Post P (elim m [ quote ↦ x | backslash ↦ y | plain ↦ z ])
mark_Post P quote x y z hx hy hz = hx
mark_Post P backslash x y z hx hy hz = hy
mark_Post P plain x y z hx hy hz = hz

-- One byte read, and a step behind it.
Reads-cons :
    {A : Type 0} (b : ℕ) (bs : Bytes) (d : ℕ) (r : Read A)
    → Post (Reads 0 (on bs d)) r
    → Post (Reads 0 (on (b ∷ bs) d)) r
Reads-cons b bs d r =
    Post-map (Reads 0 (on bs d)) (Reads 0 (on (b ∷ bs) d)) r (λ a q h. (omega (arith, h.0), h.1))

parse_string_escaped-Reads :
    (fuel : ℕ) (s bs : Bytes) (d : ℕ)
    → length bs < fuel
    → Post (Reads 0 (on bs d)) (parse_string_escaped fuel s (on bs d))
unfolding parse_string_escaped
parse_string_escaped-Reads zero s bs d h = absurd (omega arith)
parse_string_escaped-Reads (suc fuel) s [] d h = tt
parse_string_escaped-Reads (suc fuel) s (b ∷ bs) d h =
    mark_Post (Reads 0 (on (b ∷ bs) d)) (mark b) (ok s (on bs d)) _ _ (omega arith, refl)
      (Reads-cons b bs d _ (
        Reads-bind 0 0 escape (λ c. parse_string_escaped fuel (s ++ c)) (on bs d)
          (escape-Reads bs d)
          (λ c q r. parse_string_escaped-Reads fuel (s ++ c) q.rest q.depth (omega (arith, r.0)))))
      (Reads-cons b bs d _ (parse_string_escaped-Reads fuel (s ++ (b ∷ [])) bs d (omega arith)))

string_loop-Reads :
    (fuel : ℕ) (s bs : Bytes) (d : ℕ)
    → length bs < fuel
    → Post (Reads 0 (on bs d)) (string_loop fuel s (on bs d))
unfolding string_loop
string_loop-Reads zero s bs d h = absurd (omega arith)
string_loop-Reads (suc fuel) s [] d h = tt
string_loop-Reads (suc fuel) s (b ∷ bs) d h =
    mark_Post (Reads 0 (on (b ∷ bs) d)) (mark b) (ok s (on bs d)) _ _ (omega arith, refl)
      (parse_string_escaped-Reads (suc fuel) s (b ∷ bs) d h)
      (Reads-cons b bs d _ (string_loop-Reads fuel (s ++ (b ∷ [])) bs d (omega arith)))

pub parse_string-Reads : (p : Parser) → Post (Reads 1 p) (parse_string p)
unfolding parse_string
parse_string-Reads p =
    Reads-bind 1 0 (expect b'"') _ p (expect-Reads b'"' p.rest p.depth)
      (λ _ q _. string_loop-Reads (suc (length q.rest)) [] q.rest q.depth (omega arith))
