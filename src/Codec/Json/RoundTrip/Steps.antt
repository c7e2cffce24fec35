-- ===== src/Codec/Json/RoundTrip/Steps.antt =====
-- The parser of one value, one step at a time.
use ferroly.Base.{
  ℕ, suc, ◌+◌, ◌-◌, ◌<◌, ◌≡◌, refl, ap, sym, ◌∙◌, Bool, true, false, ◌||◌, ◌∷◌, ◌++◌, ◌==◌,
  if◌then◌else◌, arith,
}
use ferroly.Base.Bytes.{Bytes, ascii}
use ferroly.Codec.Value.{Value, Items, Fields, null, bool, str, array, object, no_items, no_fields}
use ferroly.Codec.Fmt.{FloatText}
use ferroly.Codec.Json.Write.Render.{quoted}
use ferroly.Codec.Json.Read.{
  Parser, ok, M, ◌>>=◌, ◌>>◌, pure, enter, leave, is_space, trim, skip_ws, expect, begins, skip_if,
  parse_string,
}
use ferroly.Codec.Json.Read.Escapes.{at_rest, bind_ok}
use ferroly.Codec.Json.Read.Strings.{parse_string-quoted}
use ferroly.Codec.Json.Parse.{
  is_digit, start, starts_number, parse_value, parse_items, parse_fields, parse_number, parse_bool,
  parse_null, parse_array, parse_object, starts_with,
}
use ferroly.Codec.Json.Parse.Numbers.{Stops, Stands, parse_number-Stands}

-- A text whose first byte is no space and not `close`.
abbrev pub Opens : ℕ → Bytes → Type 0
Opens close t =
    (b : ℕ) × (bs : Bytes) × (t ≡ b ∷ bs) × (is_space b ≡ false) × ((b == close) ≡ false)

module _ (b : ℕ) (bs : Bytes) (d : ℕ) where
  pub skip_ws-still : is_space b ≡ false → skip_ws (at_rest (b ∷ bs) d) ≡ ok tt (at_rest (b ∷ bs) d)
  unfolding skip_ws trim
  skip_ws-still h = rw h refl

  skip_if-other :
      (c : ℕ) → (b == c) ≡ false → skip_if c (at_rest (b ∷ bs) d) ≡ ok false (at_rest (b ∷ bs) d)
  unfolding skip_if begins
  skip_if-other c h = rw h refl

module _ {F : Type 0} (text : FloatText F) (fuel d : ℕ) where
  space_of : (b : ℕ) → (b == b'-' || is_digit b) ≡ true → is_space b ≡ false
  unfolding is_space
  space_of b h = ground arith

  start_of :
      (b : ℕ) (bs : Bytes) → (b == b'-' || is_digit b) ≡ true → start text (b ∷ bs) ≡ starts_number
  unfolding start
  start_of b bs h = ground arith

  number_value :
      (b : ℕ) (bs : Bytes)
      → (b == b'-' || is_digit b) ≡ true
      → parse_value text (suc fuel) (at_rest (b ∷ bs) d) ≡ parse_number text (at_rest (b ∷ bs) d)
  unfolding parse_value
  number_value b bs h =
      let space : is_space b ≡ false = space_of b h in
      let starts : start text (b ∷ bs) ≡ starts_number = start_of b bs h in
      bind_ok skip_ws _ (at_rest (b ∷ bs) d) (at_rest (b ∷ bs) d) tt (skip_ws-still b bs d space)
      ∙ rw starts refl

  pub parse_value-Stands :
      (t more : Bytes) (v : Value F)
      → Stands text t v
      → Stops more
      → parse_value text (suc fuel) (at_rest (t ++ more) d) ≡ ok v (at_rest more d)
  unfolding Stands
  parse_value-Stands t more v stands stop =
      let (c, cs, e, starts, number, value) = stands in
      ap (λ l. parse_value text (suc fuel) (at_rest (l ++ more) d)) e
      ∙ number_value c (cs ++ more) starts
      ∙ ap (λ l. parse_number text (at_rest (l ++ more) d)) (sym e)
      ∙ parse_number-Stands text t more v d stands stop

  pub parse_value-quoted :
      (s more : Bytes)
      → parse_value text (suc fuel) (at_rest (quoted s ++ more) d) ≡ ok (str s) (at_rest more d)
  unfolding parse_value skip_ws trim is_space start quoted
  parse_value-quoted s more =
      bind_ok parse_string _ (at_rest (quoted s ++ more) d) (at_rest more d) s
        (parse_string-quoted s more d)

  pub parse_value-null :
      (more : Bytes)
      → parse_value text (suc fuel) (at_rest (ascii "null" ++ more) d) ≡ ok null (at_rest more d)
  unfolding parse_value skip_ws trim is_space start parse_null starts_with
  parse_value-null more = refl

  pub parse_value-true :
      (more : Bytes)
      → parse_value text (suc fuel) (at_rest (ascii "true" ++ more) d)
        ≡ ok (bool true) (at_rest more d)
  unfolding parse_value skip_ws trim is_space start parse_bool starts_with
  parse_value-true more = refl

  pub parse_value-false :
      (more : Bytes)
      → parse_value text (suc fuel) (at_rest (ascii "false" ++ more) d)
        ≡ ok (bool false) (at_rest more d)
  unfolding parse_value skip_ws trim is_space start parse_bool starts_with
  parse_value-false more = refl

  entered : d < 128 → (ts : Bytes) → enter (at_rest ts d) ≡ ok tt (at_rest ts (d + 1))
  unfolding enter
  entered room ts = ground arith

  left : (v : Value F) (more : Bytes) → ok v (at_rest more (d + 1 - 1)) ≡ ok v (at_rest more d)
  left v more = ap (λ k. ok v (at_rest more k)) (omega arith)

  parse_array-loop :
      (loop : M (Items F)) (ts : Bytes) (a : Items F) (q : Parser)
      → Opens b']' ts
      → loop (at_rest ts d) ≡ ok a q
      → parse_array text loop (at_rest (b'[' ∷ ts) d) ≡ ok (array a) q
  unfolding parse_array expect begins
  parse_array-loop loop ts a q (b, bs, e, space, other) result =
      let here = at_rest (b ∷ bs) d in
      let entries : M (Value F) = loop >>= (λ x. pure (array x)) in
      let closed_or : Bool → M (Value F) =
        λ closed. if closed then pure (array no_items) else entries in
      ap (λ l. parse_array text loop (at_rest (b'[' ∷ l) d)) e
      ∙ bind_ok skip_ws (λ _. skip_if b']' >>= closed_or) here here tt (skip_ws-still b bs d space)
      ∙ bind_ok (skip_if b']') closed_or here here false (skip_if-other b bs d b']' other)
      ∙ bind_ok loop (λ x. pure (array x)) here q a (ap (λ l. loop (at_rest l d)) (sym e) ∙ result)

  parse_object-loop :
      (loop : M (Fields F)) (ts : Bytes) (o : Fields F) (q : Parser)
      → Opens b'}' ts
      → loop (at_rest ts d) ≡ ok o q
      → parse_object text loop (at_rest (b'{' ∷ ts) d) ≡ ok (object o) q
  unfolding parse_object expect begins
  parse_object-loop loop ts o q (b, bs, e, space, other) result =
      let here = at_rest (b ∷ bs) d in
      let entries : M (Value F) = loop >>= (λ x. pure (object x)) in
      let closed_or : Bool → M (Value F) =
        λ closed. if closed then pure (object no_fields) else entries in
      ap (λ l. parse_object text loop (at_rest (b'{' ∷ l) d)) e
      ∙ bind_ok skip_ws (λ _. skip_if b'}' >>= closed_or) here here tt (skip_ws-still b bs d space)
      ∙ bind_ok (skip_if b'}') closed_or here here false (skip_if-other b bs d b'}' other)
      ∙ bind_ok loop (λ x. pure (object x)) here q o (ap (λ l. loop (at_rest l d)) (sym e) ∙ result)

module _ {F : Type 0} (text : FloatText F) (fuel d : ℕ) (room : d < 128) (more : Bytes) where
  pub parse_value-no_items :
      parse_value text (suc fuel) (at_rest (b'[' ∷ b']' ∷ more) d)
      ≡ ok (array no_items) (at_rest more d)
  unfolding parse_value skip_ws trim is_space start parse_array expect begins skip_if leave
  parse_value-no_items =
      bind_ok enter _ (at_rest (b'[' ∷ b']' ∷ more) d) _ tt
        (entered text fuel d room (b'[' ∷ b']' ∷ more))
      ∙ left text fuel d (array no_items) more

  pub parse_value-no_fields :
      parse_value text (suc fuel) (at_rest (b'{' ∷ b'}' ∷ more) d)
      ≡ ok (object no_fields) (at_rest more d)
  unfolding parse_value skip_ws trim is_space start parse_object expect begins skip_if leave
  parse_value-no_fields =
      bind_ok enter _ (at_rest (b'{' ∷ b'}' ∷ more) d) _ tt
        (entered text fuel d room (b'{' ∷ b'}' ∷ more))
      ∙ left text fuel d (object no_fields) more

  pub parse_value-array :
      (ts : Bytes) (a : Items F)
      → Opens b']' ts
      → parse_items text fuel (at_rest ts (d + 1)) ≡ ok a (at_rest more (d + 1))
      → parse_value text (suc fuel) (at_rest (b'[' ∷ ts) d) ≡ ok (array a) (at_rest more d)
  unfolding parse_value skip_ws trim is_space start leave
  parse_value-array ts a opens e =
      bind_ok enter _ (at_rest (b'[' ∷ ts) d) _ tt (entered text fuel d room (b'[' ∷ ts))
      ∙ bind_ok (parse_array text (parse_items text fuel)) (λ v. leave >> pure v)
          (at_rest (b'[' ∷ ts) (d + 1)) (at_rest more (d + 1)) (array a)
          (parse_array-loop text fuel (d + 1) (parse_items text fuel) ts a (at_rest more (d + 1))
            opens e)
      ∙ left text fuel d (array a) more

  pub parse_value-object :
      (ts : Bytes) (o : Fields F)
      → Opens b'}' ts
      → parse_fields text fuel (at_rest ts (d + 1)) ≡ ok o (at_rest more (d + 1))
      → parse_value text (suc fuel) (at_rest (b'{' ∷ ts) d) ≡ ok (object o) (at_rest more d)
  unfolding parse_value skip_ws trim is_space start leave
  parse_value-object ts o opens e =
      bind_ok enter _ (at_rest (b'{' ∷ ts) d) _ tt (entered text fuel d room (b'{' ∷ ts))
      ∙ bind_ok (parse_object text (parse_fields text fuel)) (λ v. leave >> pure v)
          (at_rest (b'{' ∷ ts) (d + 1)) (at_rest more (d + 1)) (object o)
          (parse_object-loop text fuel (d + 1) (parse_fields text fuel) ts o (at_rest more (d + 1))
            opens e)
      ∙ left text fuel d (object o) more
