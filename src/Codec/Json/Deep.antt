-- ===== src/Codec/Json/Deep.antt =====
-- The parser on input that nests too deep.
use ferroly.Base.{ℕ, zero, suc, ◌+◌, ◌*◌, ◌≤◌, ◌<◌, ◌≡◌, refl, ap, ◌∙◌, ◌∷◌, ◌++◌, arith, replicate}
use ferroly.Base.Bytes.{Bytes}
use ferroly.Codec.Fmt.{FloatText}
use ferroly.Codec.Json.Read.{
  Parser, ok, err, Error, M, ◌>>=◌, ◌>>◌, pure, nesting_too_deep, enter, leave, is_space, trim,
  skip_ws, expect, begins, skip_if,
}
use ferroly.Codec.Json.Read.Escapes.{at_rest, bind_ok}
use ferroly.Codec.Json.Parse.{
  start, parse_value, parse_items, parse_array, fuel_for, at_end, from_str,
}

bind_err :
    {A B : Type 0} (m : M A) (f : A → M B) (p : Parser) (e : Error)
    → m p ≡ err e
    → (m >>= f) p ≡ err e
bind_err m f p e h = rw (◌>>=◌, h) refl

abbrev pub brackets : ℕ → Bytes → Bytes
brackets n more = replicate n b'[' ++ more

enter-room : (bs : Bytes) (d : ℕ) → d < 128 → enter (at_rest bs d) ≡ ok tt (at_rest bs (d + 1))
unfolding enter
enter-room bs d h = ground arith

enter-full : (bs : Bytes) → enter (at_rest bs 128) ≡ err nesting_too_deep
unfolding enter
enter-full bs = refl

module _ {F : Type 0} (text : FloatText F) where
  parse_value-brackets :
      (k fuel d : ℕ) (more : Bytes)
      → d + k ≡ 128
      → 2 * k + 1 ≤ fuel
      → parse_value text fuel (at_rest (brackets (suc k) more) d) ≡ err nesting_too_deep
  unfolding parse_value skip_ws trim is_space start parse_array expect begins skip_if
  parse_value-brackets k zero d more full enough = absurd (omega arith)
  parse_value-brackets zero (suc fuel) d more full enough =
      ap (λ n. parse_value text (suc fuel) (at_rest (b'[' ∷ more) n)) (omega arith)
      ∙ bind_err enter _ (at_rest (b'[' ∷ more) 128) nesting_too_deep (enter-full (b'[' ∷ more))
  parse_value-brackets (suc k) (suc zero) d more full enough = absurd (omega arith)
  parse_value-brackets (suc k) (suc (suc fuel)) d more full enough =
      let inner = at_rest (brackets (suc k) more) (d + 1) in
      let outer = at_rest (b'[' ∷ brackets (suc k) more) (d + 1) in
      bind_ok enter _ (at_rest (b'[' ∷ brackets (suc k) more) d) outer tt
        (enter-room (b'[' ∷ brackets (suc k) more) d (omega arith))
      ∙ bind_err (parse_array text (parse_items text (suc fuel))) (λ v. leave >> pure v) outer
          nesting_too_deep
          (bind_err (parse_items text (suc fuel)) _ inner nesting_too_deep (
            bind_err (parse_value text fuel) _ inner nesting_too_deep
              (parse_value-brackets k fuel (d + 1) more (omega arith) (omega arith))))

  -- `from_str` refuses input that starts with 129 opening brackets as nested too deep, whatever follows.
  pub from_str-brackets : (more : Bytes) → from_str text (brackets 129 more) ≡ err nesting_too_deep
  unfolding from_str skip_ws trim is_space
  from_str-brackets more = ap (at_end text) (
      bind_err (parse_value text (fuel_for text (brackets 129 more))) (λ v. skip_ws >> pure v)
        (at_rest (brackets 129 more) 0) nesting_too_deep
        (parse_value-brackets 128 (fuel_for text (brackets 129 more)) 0 more refl (omega arith)))
