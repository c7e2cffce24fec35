-- ===== src/Codec/Json/Total/Atoms.antt =====
-- The parser of a value that is no container, on every input.
use ferroly.Base.{
  ℕ, zero, suc, ◌+◌, ◌≤◌, ◌≡◌, inl, inr, refl, Bool, true, false, [], ◌∷◌, ◌++◌, Option, none, some,
  ◌==◌, Bool-cases, length, drop, arith, ◌||◌,
}
use ferroly.Base.Bytes.{Bytes, ascii}
use ferroly.Codec.Value.{ℤ, Value, str}
use ferroly.Codec.Fmt.{FloatText}
use ferroly.Codec.Json.Read.{Parser, ◌>>=◌, pure, begins, parse_string}
use ferroly.Codec.Json.Read.Post.{Post, Post-bind, Reads, if_Read, parse_string-Reads}
use ferroly.Codec.Json.Height.{height}
use ferroly.Codec.Json.Parse.{
  is_digit, is_mark, Span, number_loop, number_span, number_of, give, as_float, as_uint, as_int,
  parse_i64, parse_u64, parse_number, starts_with, parse_bool, parse_null,
}

abbrev pub Within : {A : Type 0} → (A → ℕ) → ℕ → Parser → A → Parser → Type 0
Within h most p a q = Reads 0 p a q × (h a + p.depth ≤ most)

module _ {F : Type 0} (text : FloatText F) where
  number_loop-length :
      (t : Bytes) (fl : Bool) (bs : Bytes) → length (number_loop t fl bs).rest ≤ length bs
  unfolding number_loop
  number_loop-length t fl [] = omega arith
  number_loop-length t fl (b ∷ bs) = elim (Bool-cases (is_digit b || is_mark b)) [
    | inl taken ↦
        rw (number_loop, taken)
          (omega (arith, number_loop-length (t ++ (b ∷ [])) (fl || is_mark b) bs))
    | inr stop ↦ rw (number_loop, stop) (omega arith)
  ]

  number_span-length : (bs : Bytes) → length (number_span bs).rest ≤ length bs
  unfolding number_span begins
  number_span-length [] = number_loop-length [] false []
  number_span-length (b ∷ bs) = elim (Bool-cases (b == b'-')) [
    | inl minus ↦ rw (number_span, minus) (omega (arith, number_loop-length (b'-' ∷ []) false bs))
    | inr plain ↦ rw (number_span, plain) (number_loop-length [] false (b ∷ bs))
  ]

  drop-length : (n : ℕ) (bs : Bytes) → length (drop n bs) ≤ length bs
  drop-length zero bs = omega arith
  drop-length (suc n) [] = omega arith
  drop-length (suc n) (b ∷ bs) = omega (arith, drop-length n bs)

  abbrev Flat : Option (Value F) → Type 0
  Flat none = Unit
  Flat (some v) = height v ≡ 0

  as_float-Flat : (t : Bytes) (o : Option F) → Flat (as_float text t o)
  unfolding as_float height
  as_float-Flat t none = tt
  as_float-Flat t (some f) = refl

  as_uint-Flat : (t : Bytes) (o : Option ℕ) → Flat (as_uint text t o)
  unfolding as_uint height
  as_uint-Flat t none = as_float-Flat t (text.from_str t)
  as_uint-Flat t (some u) = refl

  as_int-Flat : (t : Bytes) (o : Option ℤ) → Flat (as_int text t o)
  unfolding as_int height
  as_int-Flat t none = as_uint-Flat t (parse_u64 t)
  as_int-Flat t (some i) = refl

  number_of-Flat : (t : Bytes) (is_float : Bool) → Flat (number_of text t is_float)
  unfolding number_of
  number_of-Flat t true = as_float-Flat t (text.from_str t)
  number_of-Flat t false = as_int-Flat t (parse_i64 t)

  module _ (p : Parser) (deep : p.depth ≤ 128) where
    give-Within :
        (t : Bytes) (o : Option (Value F)) (rest : Bytes)
        → Flat o
        → length rest ≤ length p.rest
        → Post (Within height 128 p) (give text t o (record { rest = rest; depth = p.depth }))
    unfolding give
    give-Within t none rest h shorter = tt
    give-Within t (some v) rest h shorter = ((omega arith, refl), omega arith)

    number_Within :
        (s : Span)
        → length s.rest ≤ length p.rest
        → Post (Within height 128 p) (
            give text s.text
              (number_of text s.text s.is_float)
              (record { rest = s.rest; depth = p.depth }))
    number_Within s shorter =
        give-Within s.text (number_of text s.text s.is_float) s.rest
          (number_of-Flat s.text s.is_float) shorter

    pub parse_number-Within : Post (Within height 128 p) (parse_number text p)
    unfolding parse_number
    parse_number-Within = number_Within (number_span p.rest) (number_span-length p.rest)

    pub parse_bool-Within : Post (Within height 128 p) (parse_bool text p)
    unfolding parse_bool height
    parse_bool-Within =
        if_Read (Within height 128 p) (starts_with text p.rest (ascii "true")) _ _
          ((omega (arith, drop-length 4 p.rest), refl), omega arith)
          (if_Read (Within height 128 p) (starts_with text p.rest (ascii "false")) _ _
            ((omega (arith, drop-length 5 p.rest), refl), omega arith) tt)

    pub parse_null-Within : Post (Within height 128 p) (parse_null text p)
    unfolding parse_null height
    parse_null-Within =
        if_Read (Within height 128 p) (starts_with text p.rest (ascii "null")) _ _
          ((omega (arith, drop-length 4 p.rest), refl), omega arith) tt

    pub string_value-Within :
        Post (Within (height {F = F}) 128 p) ((parse_string >>= λ s. pure (str s)) p)
    unfolding height
    string_value-Within =
        Post-bind (Reads 1 p) (Within (height {F = F}) 128 p) parse_string (λ s. pure (str s)) p
          (parse_string-Reads p) (λ s q r. ((omega (arith, r.0), r.1), omega arith))
