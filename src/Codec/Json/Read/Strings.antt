-- ===== src/Codec/Json/Read/Strings.antt =====
-- The string parser on what the encoder writes.
use mathlib.Core.List.{append_assoc, append-nil}
use ferroly.Base.{
  ℕ, zero, suc, ◌<◌, ◌≡◌, ◌⊎◌, inl, inr, refl, ap, sym, ◌∙◌, [], ◌∷◌, ◌++◌, Option-cases, length,
  length-append, arith,
}
use ferroly.Base.Bytes.{Bytes}
use ferroly.Codec.Json.Write.{escape_of}
use ferroly.Codec.Json.Write.Render.{escaped, escaped_byte, quoted}
use ferroly.Codec.Json.Read.{
  ok, plain, mark, escape, parse_string_escaped, string_loop, parse_string, expect, begins,
}
use ferroly.Codec.Json.Read.Escapes.{at_rest, bind_ok, Undone, escape_of-escape, escape_of-mark}

module _ (fuel : ℕ) (acc : Bytes) (d : ℕ) where
  parse_string_escaped-plain :
      (b : ℕ) (r : Bytes)
      → mark b ≡ plain
      → parse_string_escaped (suc fuel) acc (at_rest (b ∷ r) d)
        ≡ parse_string_escaped fuel (acc ++ (b ∷ [])) (at_rest r d)
  unfolding parse_string_escaped
  parse_string_escaped-plain b r e = rw (parse_string_escaped, e) refl

  string_loop-plain :
      (b : ℕ) (r : Bytes)
      → mark b ≡ plain
      → string_loop (suc fuel) acc (at_rest (b ∷ r) d)
        ≡ string_loop fuel (acc ++ (b ∷ [])) (at_rest r d)
  unfolding string_loop
  string_loop-plain b r e = rw (string_loop, e) refl

  parse_string_escaped-quote :
      (more : Bytes)
      → parse_string_escaped (suc fuel) acc (at_rest (b'"' ∷ more) d) ≡ ok acc (at_rest more d)
  unfolding parse_string_escaped mark
  parse_string_escaped-quote more = refl

  string_loop-quote :
      (more : Bytes)
      → string_loop (suc fuel) acc (at_rest (b'"' ∷ more) d) ≡ ok acc (at_rest more d)
  unfolding string_loop mark
  string_loop-quote more = refl

  string_loop-backslash :
      (r : Bytes)
      → string_loop (suc fuel) acc (at_rest (b'\\' ∷ r) d)
        ≡ parse_string_escaped (suc fuel) acc (at_rest (b'\\' ∷ r) d)
  unfolding string_loop mark
  string_loop-backslash r = refl

  parse_string_escaped-escape :
      (b : ℕ) (r more : Bytes)
      → escape (at_rest r d) ≡ ok (b ∷ []) (at_rest more d)
      → parse_string_escaped (suc fuel) acc (at_rest (b'\\' ∷ r) d)
        ≡ parse_string_escaped fuel (acc ++ (b ∷ [])) (at_rest more d)
  unfolding parse_string_escaped mark
  parse_string_escaped-escape b r more e =
      bind_ok escape _ (at_rest r d) (at_rest more d) (b ∷ []) e

-- The text of a string, its quote and what follows.
abbrev tail_of : Bytes → Bytes → Bytes
tail_of s more = escaped s ++ (b'"' ∷ more)

tail_of-nil : (more : Bytes) → tail_of [] more ≡ b'"' ∷ more
unfolding escaped
tail_of-nil more = refl

-- How a byte is written: as itself, or as an escape that is undone.
Written : ℕ → Bytes → Type 0
Written b e = ((mark b ≡ plain) × (e ≡ b ∷ [])) ⊎ Undone b e

written : (b : ℕ) → Written b (escaped_byte b (escape_of b))
unfolding Written
written b = elim (Option-cases (escape_of b)) [
  | inl clean ↦ rw clean (inl (escape_of-mark b clean, refl))
  | inr (e, found) ↦ rw found (inr (escape_of-escape b e found))
]

tail_of-cons :
    (b : ℕ) (s more : Bytes) (e : Bytes)
    → escaped_byte b (escape_of b) ≡ e
    → tail_of (b ∷ s) more ≡ e ++ tail_of s more
unfolding escaped
tail_of-cons b s more e is =
    append_assoc (escaped_byte b (escape_of b)) (escaped s) (b'"' ∷ more)
    ∙ ap (λ l. l ++ tail_of s more) is

parse_string_escaped-escaped :
    (s : Bytes) (fuel : ℕ) (acc more : Bytes) (d : ℕ)
    → length (tail_of s more) < fuel
    → parse_string_escaped fuel acc (at_rest (tail_of s more) d) ≡ ok (acc ++ s) (at_rest more d)
unfolding Written Undone
parse_string_escaped-escaped s zero acc more d h = absurd (omega arith)
parse_string_escaped-escaped [] (suc fuel) acc more d h =
    ap (λ r. parse_string_escaped (suc fuel) acc (at_rest r d)) (tail_of-nil more)
    ∙ parse_string_escaped-quote fuel acc d more
    ∙ ap (λ l. ok l (at_rest more d)) (sym (append-nil acc))
parse_string_escaped-escaped (b ∷ s) (suc fuel) acc more d h = elim (written b) [
  | inl (copied, is) ↦
      let e = tail_of-cons b s more (b ∷ []) is in
      ap (λ r. parse_string_escaped (suc fuel) acc (at_rest r d)) e
      ∙ parse_string_escaped-plain fuel acc d b (tail_of s more) copied
      ∙ parse_string_escaped-escaped s fuel (acc ++ (b ∷ [])) more d (omega (arith, ap length e))
      ∙ ap (λ l. ok l (at_rest more d)) (append_assoc acc (b ∷ []) s)
  | inr (r, is, undone) ↦
      let e = tail_of-cons b s more (b'\\' ∷ r) is in
      ap (λ r. parse_string_escaped (suc fuel) acc (at_rest r d)) e
      ∙ parse_string_escaped-escape fuel acc d b (r ++ tail_of s more) (tail_of s more)
          (undone (tail_of s more) d)
      ∙ parse_string_escaped-escaped s fuel (acc ++ (b ∷ [])) more d
          (omega (arith, ap length e, length-append r (tail_of s more)))
      ∙ ap (λ l. ok l (at_rest more d)) (append_assoc acc (b ∷ []) s)
]

string_loop-escaped :
    (s : Bytes) (fuel : ℕ) (acc more : Bytes) (d : ℕ)
    → length (tail_of s more) < fuel
    → string_loop fuel acc (at_rest (tail_of s more) d) ≡ ok (acc ++ s) (at_rest more d)
unfolding Written Undone
string_loop-escaped s zero acc more d h = absurd (omega arith)
string_loop-escaped [] (suc fuel) acc more d h =
    ap (λ r. string_loop (suc fuel) acc (at_rest r d)) (tail_of-nil more)
    ∙ string_loop-quote fuel acc d more
    ∙ ap (λ l. ok l (at_rest more d)) (sym (append-nil acc))
string_loop-escaped (b ∷ s) (suc fuel) acc more d h = elim (written b) [
  | inl (copied, is) ↦
      let e = tail_of-cons b s more (b ∷ []) is in
      ap (λ r. string_loop (suc fuel) acc (at_rest r d)) e
      ∙ string_loop-plain fuel acc d b (tail_of s more) copied
      ∙ string_loop-escaped s fuel (acc ++ (b ∷ [])) more d (omega (arith, ap length e))
      ∙ ap (λ l. ok l (at_rest more d)) (append_assoc acc (b ∷ []) s)
  | inr (r, is, undone) ↦
      let e = tail_of-cons b s more (b'\\' ∷ r) is in
      ap (λ r. string_loop (suc fuel) acc (at_rest r d)) e
      ∙ string_loop-backslash fuel acc d (r ++ tail_of s more)
      ∙ ap (λ r. parse_string_escaped (suc fuel) acc (at_rest r d)) (sym e)
      ∙ parse_string_escaped-escaped (b ∷ s) (suc fuel) acc more d h
]

-- The parser reads back every string that the encoder writes.
pub parse_string-quoted :
    (s more : Bytes) (d : ℕ) → parse_string (at_rest (quoted s ++ more) d) ≡ ok s (at_rest more d)
unfolding parse_string expect begins quoted
parse_string-quoted s more d =
    let e : (escaped s ++ (b'"' ∷ [])) ++ more ≡ tail_of s more =
      append_assoc (escaped s) (b'"' ∷ []) more in
    ap (λ r. string_loop (suc (length r)) [] (at_rest r d)) e
    ∙ string_loop-escaped s (suc (length (tail_of s more))) [] more d (omega arith)
