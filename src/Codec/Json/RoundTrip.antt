-- ===== src/Codec/Json/RoundTrip.antt =====
-- The parser on the text of a value.
mod Steps
mod Entries
mod Size
use mathlib.Core.List.{append_assoc, append-nil}
use ferroly.Base.{
  ℕ, zero, suc, ◌+◌, ◌-◌, ◌*◌, ◌≤◌, ◌<◌, ◌≡◌, refl, ap, sym, ◌∙◌, Bool, true, false, ◌||◌, List, [],
  ◌∷◌, ◌++◌, ◌==◌, length, length-append, arith,
}
use ferroly.Base.Bytes.{Bytes, ascii}
use ferroly.Codec.Value.{
  Value, Items, Fields, null, bool, int, uint, float, str, bytes, array, object, no_items, item,
  no_fields, field,
}
use ferroly.Codec.Fmt.{FloatText}
use ferroly.Codec.Json.Write.{to_string}
use ferroly.Codec.Json.Write.Render.{
  quoted, comma, render, render_items, render_fields, to_string-render,
}
use ferroly.Codec.Json.Read.{Parser, Read, ok, M, ◌>>=◌, ◌>>◌, pure, is_space, skip_ws, trim}
use ferroly.Codec.Json.Read.Escapes.{at_rest, bind_ok}
use ferroly.Codec.Json.Parse.{
  is_digit, parse_value, parse_items, parse_fields, from_str, fuel_for, at_end,
}
use ferroly.Codec.Json.Parse.Numbers.{Stops, Stands, decimal-Stands, int_text-Stands}
use ferroly.Codec.Json.Parse.Floats.{float_text-Stands}
use ferroly.Codec.Json.Readable.{IsReadable, AreItems, AreFields, size, size_items, size_fields}
use ferroly.Codec.Json.RoundTrip.Steps.{
  Opens, skip_ws-still, parse_value-Stands, parse_value-quoted, parse_value-null, parse_value-true,
  parse_value-false, parse_value-no_items, parse_value-no_fields, parse_value-array,
  parse_value-object,
}
use ferroly.Codec.Json.RoundTrip.Size.{size-le, size-length}
use ferroly.Codec.Json.RoundTrip.Entries.{
  parse_items-last, parse_items-more, parse_fields-last, parse_fields-more,
}

field_text :
    (q r rest t : Bytes) → (q ++ (b':' ∷ (r ++ rest))) ++ t ≡ q ++ (b':' ∷ (r ++ (rest ++ t)))
field_text q r rest t =
    append_assoc q (b':' ∷ (r ++ rest)) t ∙ ap (λ l. q ++ (b':' ∷ l)) (append_assoc r rest t)

module _ {F : Type 0} (text : FloatText F) where
  Stands-Opens : (t more : Bytes) (v : Value F) → Stands text t v → Opens b']' (t ++ more)
  unfolding Stands is_space
  Stands-Opens t more v (c, cs, e, starts, number, value) =
      (c, cs ++ more, ap (λ l. l ++ more) e, ground arith, ground arith)

  render-Opens :
      (v : Value F) (room : ℕ) (more : Bytes)
      → IsReadable text room v
      → Opens b']' (render text v ++ more)
  unfolding IsReadable render quoted is_space
  render-Opens null room more h = (b'n', _, refl, refl, refl)
  render-Opens (bool true) room more h = (b't', _, refl, refl, refl)
  render-Opens (bool false) room more h = (b'f', _, refl, refl, refl)
  render-Opens (int i) room more h = Stands-Opens _ more (int i) (int_text-Stands text i h)
  render-Opens (uint u) room more h = Stands-Opens _ more (uint u) (decimal-Stands text u h.0 h.1)
  render-Opens (float f) room more h = Stands-Opens _ more (float f) (float_text-Stands text f h)
  render-Opens (str s) room more h = (b'"', _, refl, refl, refl)
  render-Opens (bytes b) room more h = absurd h
  render-Opens (array a) room more h = (b'[', _, refl, refl, refl)
  render-Opens (object o) room more h = (b'{', _, refl, refl, refl)

  abbrev some_items : Items F → Bool
  some_items no_items = false
  some_items (item v a) = true

  abbrev some_fields : Fields F → Bool
  some_fields no_fields = false
  some_fields (field k v o) = true

  item-Opens :
      (v : Value F) (a : Items F) (room : ℕ) (more : Bytes)
      → IsReadable text room v
      → Opens b']' (render_items text true (item v a) ++ more)
  unfolding render
  item-Opens v a room more h =
      let (b, bs, e, space, other) = render-Opens v room (render_items text false a ++ more) h in
      (b, bs, append_assoc (render text v) (render_items text false a) more ∙ e, space, other)

  field-Opens :
      (k : Bytes) (v : Value F) (o : Fields F) (more : Bytes)
      → Opens b'}' (render_fields text true (field k v o) ++ more)
  unfolding render quoted is_space
  field-Opens k v o more = (b'"', _, refl, refl, refl)

  -- A text, what follows it, and the room that is left for nesting.
  mutual
    unfolding IsReadable render size

    parse_value-render :
        (v : Value F) (fuel d room : ℕ) (more : Bytes)
        → size v ≤ fuel
        → room + d ≤ 128
        → IsReadable text room v
        → Stops more
        → parse_value text fuel (at_rest (render text v ++ more) d) ≡ ok v (at_rest more d)
    parse_value-render v zero d room more enough deep h stop =
        absurd (omega (arith, size-le text v))
    parse_value-render null (suc fuel) d room more enough deep h stop =
        parse_value-null text fuel d more
    parse_value-render (bool true) (suc fuel) d room more enough deep h stop =
        parse_value-true text fuel d more
    parse_value-render (bool false) (suc fuel) d room more enough deep h stop =
        parse_value-false text fuel d more
    parse_value-render (int i) (suc fuel) d room more enough deep h stop =
        parse_value-Stands text fuel d _ more (int i) (int_text-Stands text i h) stop
    parse_value-render (uint u) (suc fuel) d room more enough deep h stop =
        parse_value-Stands text fuel d _ more (uint u) (decimal-Stands text u h.0 h.1) stop
    parse_value-render (float f) (suc fuel) d room more enough deep h stop =
        parse_value-Stands text fuel d _ more (float f) (float_text-Stands text f h) stop
    parse_value-render (str s) (suc fuel) d room more enough deep h stop =
        parse_value-quoted text fuel d s more
    parse_value-render (bytes b) (suc fuel) d room more enough deep h stop = absurd h
    parse_value-render (array no_items) (suc fuel) d room more enough deep h stop =
        parse_value-no_items text fuel d (omega (arith, h.0)) more
    parse_value-render (array (item v a)) (suc fuel) d room more enough deep h stop =
        let ts : Bytes = render_items text true (item v a) ++ (b']' ∷ more) in
        ap (λ l. parse_value text (suc fuel) (at_rest (b'[' ∷ l) d))
          (append_assoc (render_items text true (item v a)) (b']' ∷ []) more)
        ∙ parse_value-array text fuel d (omega (arith, h.0)) more ts (item v a)
            (item-Opens v a (room - 1) (b']' ∷ more) h.1.0)
            (parse_items-render (item v a) fuel (d + 1) (room - 1) more refl (omega arith)
              (omega (arith, h.0)) h.1)
    parse_value-render (object no_fields) (suc fuel) d room more enough deep h stop =
        parse_value-no_fields text fuel d (omega (arith, h.0)) more
    parse_value-render (object (field k v o)) (suc fuel) d room more enough deep h stop =
        let ts : Bytes = render_fields text true (field k v o) ++ (b'}' ∷ more) in
        ap (λ l. parse_value text (suc fuel) (at_rest (b'{' ∷ l) d))
          (append_assoc (render_fields text true (field k v o)) (b'}' ∷ []) more)
        ∙ parse_value-object text fuel d (omega (arith, h.0)) more ts (field k v o)
            (field-Opens k v o (b'}' ∷ more))
            (parse_fields-render (field k v o) fuel (d + 1) (room - 1) more refl (omega arith)
              (omega (arith, h.0)) h.1)

    parse_items-render :
        (a : Items F) (fuel d room : ℕ) (more : Bytes)
        → some_items a ≡ true
        → size_items a ≤ fuel
        → room + d ≤ 128
        → AreItems text room a
        → parse_items text fuel (at_rest (render_items text true a ++ (b']' ∷ more)) d)
          ≡ ok a (at_rest more d)
    parse_items-render no_items fuel d room more some enough deep h = absurd cc
    parse_items-render (item v a) zero d room more some enough deep h = absurd (omega arith)
    parse_items-render (item v no_items) (suc fuel) d room more some enough deep h =
        let ts : Bytes = (render text v ++ []) ++ (b']' ∷ more) in
        parse_items-last text fuel d v ts more (
          ap (λ l. parse_value text fuel (at_rest l d))
            (append_assoc (render text v) [] (b']' ∷ more))
          ∙ parse_value-render v fuel d room (b']' ∷ more) (omega arith) deep h.0 refl)
    parse_items-render (item v (item v' a)) (suc fuel) d room more some enough deep h =
        let rest : Bytes = render_items text true (item v' a) in
        let ts : Bytes = (render text v ++ (b',' ∷ rest)) ++ (b']' ∷ more) in
        parse_items-more text fuel d v ts (rest ++ (b']' ∷ more)) (item v' a) (at_rest more d)
          (ap (λ l. parse_value text fuel (at_rest l d))
              (append_assoc (render text v) (b',' ∷ rest) (b']' ∷ more))
            ∙ parse_value-render v fuel d room (b',' ∷ (rest ++ (b']' ∷ more))) (omega arith) deep
                h.0 refl)
          (parse_items-render (item v' a) fuel d room more refl (omega arith) deep h.1)

    parse_fields-render :
        (o : Fields F) (fuel d room : ℕ) (more : Bytes)
        → some_fields o ≡ true
        → size_fields o ≤ fuel
        → room + d ≤ 128
        → AreFields text room o
        → parse_fields text fuel (at_rest (render_fields text true o ++ (b'}' ∷ more)) d)
          ≡ ok o (at_rest more d)
    parse_fields-render no_fields fuel d room more some enough deep h = absurd cc
    parse_fields-render (field k v o) zero d room more some enough deep h = absurd (omega arith)
    parse_fields-render (field k v no_fields) (suc fuel) d room more some enough deep h =
        let ts : Bytes = render text v ++ (b'}' ∷ more) in
        ap (λ l. parse_fields text (suc fuel) (at_rest l d))
          (field_text (quoted k) (render text v) [] (b'}' ∷ more))
        ∙ parse_fields-last text fuel d v ts k more
            (parse_value-render v fuel d room (b'}' ∷ more) (omega arith) deep h.0 refl)
    parse_fields-render (field k v (field k' v' o)) (suc fuel) d room more some enough deep h =
        let rest : Bytes = render_fields text true (field k' v' o) in
        let ts : Bytes = render text v ++ (b',' ∷ (rest ++ (b'}' ∷ more))) in
        ap (λ l. parse_fields text (suc fuel) (at_rest l d))
          (field_text (quoted k) (render text v) (b',' ∷ rest) (b'}' ∷ more))
        ∙ parse_fields-more text fuel d v ts k (rest ++ (b'}' ∷ more)) (field k' v' o)
            (at_rest more d)
            (parse_value-render v fuel d room (b',' ∷ (rest ++ (b'}' ∷ more))) (omega arith) deep
              h.0 refl)
            (parse_fields-render (field k' v' o) fuel d room more refl (omega arith) deep h.1)

  parse_value-text :
      (v : Value F)
      → IsReadable text 128 v
      → parse_value text (fuel_for text (render text v)) (at_rest (render text v) 0)
        ≡ ok v (at_rest [] 0)
  parse_value-text v h =
      ap (λ l. parse_value text (fuel_for text (render text v)) (at_rest l 0))
        (sym (append-nil (render text v)))
      ∙ parse_value-render v (fuel_for text (render text v)) 0 128 []
          (omega (arith, size-length text v)) (omega arith) h tt

  skip_ws-text :
      (v : Value F)
      → IsReadable text 128 v
      → skip_ws (at_rest (render text v) 0) ≡ ok tt (at_rest (render text v) 0)
  skip_ws-text v h =
      let (b, bs, e, space, other) = render-Opens v 128 [] h in
      let same : render text v ≡ b ∷ bs = sym (append-nil (render text v)) ∙ e in
      ap (λ l. skip_ws (at_rest l 0)) same
      ∙ skip_ws-still b bs 0 space
      ∙ ap (λ l. ok tt (at_rest l 0)) (sym same)

  -- `from_str` reads back, whole, every value from the text that `to_string` writes for it, when the
  -- value nests at most 128 containers deep, has integers in the ranges of `Int` and of `UInt` (above
  -- `i64::MAX`), no byte strings, and finite floats that the standard library prints and reads back.
  pub from_str-to_string :
      (v : Value F) → IsReadable text 128 v → from_str text (to_string text v) ≡ ok v (at_rest [] 0)
  unfolding from_str skip_ws trim
  from_str-to_string v h =
      let t = at_rest (render text v) 0 in
      let then_end : M (Value F) =
        parse_value text (fuel_for text (render text v)) >>= λ w. skip_ws >> pure w in
      ap (from_str text) (to_string-render text v)
      ∙ ap (at_end text) (
          bind_ok skip_ws (λ _. then_end) t t tt (skip_ws-text v h)
          ∙ bind_ok (parse_value text (fuel_for text (render text v))) (λ w. skip_ws >> pure w) t
              (at_rest [] 0) v (parse_value-text v h))
