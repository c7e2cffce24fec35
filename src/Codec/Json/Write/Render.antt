-- ===== src/Codec/Json/Write/Render.antt =====
-- The JSON text of a value, and what the encoder writes.
use mathlib.Core.List.{append_assoc, append-nil}
use ferroly.Base.{
  ℕ, ◌≡◌, inl, inr, refl, ap, sym, ◌∙◌, Bool, true, false, not, List, [], ◌∷◌, ◌++◌, Option, none,
  some, if◌then◌else◌, any, Option-cases, arith,
}
use ferroly.Base.Bytes.{Bytes, ascii}
use ferroly.Codec.Value.{
  Value, Items, Fields, null, bool, int, uint, float, str, bytes, array, object, no_items, item,
  no_fields, field,
}
use ferroly.Codec.Fmt.{FloatText, write_u64, write_json_f64, is_float_mark}
use ferroly.Codec.Fmt.Laws.{decimal, write_u64-decimal, write_i64_lem, int_text}
use ferroly.Codec.Json.Write.{
  JsonEncoder, new, push, sep, sep_first, escape_of, write_from, write_string, write_bytes,
  emit_value, emit_items, emit_fields, to_string, end, key,
}

abbrev pub escaped_byte : ℕ → Option Bytes → Bytes
escaped_byte b none = b ∷ []
escaped_byte b (some e) = e

-- A string with its escapes, and in quotes.
unfoldable pub escaped : Bytes → Bytes
escaped [] = []
escaped (b ∷ s) = escaped_byte b (escape_of b) ++ escaped s

unfoldable pub quoted : Bytes → Bytes
quoted s = b'"' ∷ (escaped s ++ (b'"' ∷ []))

abbrev pub comma : Bool → Bytes
comma first = if first then [] else b',' ∷ []

abbrev bytes_text : Bool → Bytes → Bytes
bytes_text first [] = []
bytes_text first (b ∷ bs) = comma first ++ (decimal b ++ bytes_text false bs)

write_from-escaped : (out run s : Bytes) → write_from out run s ≡ out ++ (run ++ escaped s)
unfolding write_from escaped
write_from-escaped out run [] = ap (λ l. out ++ l) (sym (append-nil run))
write_from-escaped out run (b ∷ s) = elim (Option-cases (escape_of b)) [
  | inl clean ↦
      rw (clean, write_from)
        (write_from-escaped out (run ++ (b ∷ [])) s
          ∙ ap (λ l. out ++ l) (append_assoc run (b ∷ []) (escaped s)))
  | inr (e, found) ↦
      rw (found, write_from)
        (write_from-escaped (out ++ (run ++ e)) [] s
          ∙ append_assoc out (run ++ e) (escaped s)
          ∙ ap (λ l. out ++ l) (append_assoc run e (escaped s)))
]

write_string-quoted : (out s : Bytes) → write_string out s ≡ out ++ quoted s
unfolding write_string quoted
write_string-quoted out s =
    ap (λ l. l ++ (b'"' ∷ [])) (write_from-escaped (out ++ (b'"' ∷ [])) [] s)
    ∙ append_assoc (out ++ (b'"' ∷ [])) (escaped s) (b'"' ∷ [])
    ∙ append_assoc out (b'"' ∷ []) (escaped s ++ (b'"' ∷ []))

write_bytes-text :
    (bs out : Bytes) (more : Bool) → write_bytes out more bs ≡ out ++ bytes_text (not more) bs
unfolding write_bytes
write_bytes-text [] out more = sym (append-nil out)
write_bytes-text (b ∷ bs) out true =
    write_bytes-text bs (write_u64 (out ++ (b',' ∷ [])) b) true
    ∙ ap (λ l. l ++ bytes_text false bs) (write_u64-decimal (out ++ (b',' ∷ [])) b)
    ∙ append_assoc (out ++ (b',' ∷ [])) (decimal b) (bytes_text false bs)
    ∙ append_assoc out (b',' ∷ []) (decimal b ++ bytes_text false bs)
write_bytes-text (b ∷ bs) out false =
    write_bytes-text bs (write_u64 out b) true
    ∙ ap (λ l. l ++ bytes_text false bs) (write_u64-decimal out b)
    ∙ append_assoc out (decimal b) (bytes_text false bs)

module _ {F : Type 0} (text : FloatText F) where
  unfoldable pub float_text : F → Bytes
  float_text f =
      if text.is_finite f
      then (if any is_float_mark (text.display f)
          then text.display f
          else text.display f ++ ascii ".0")
      else ascii "null"

  unfoldable mutual
    pub render : Value F → Bytes
    render null = ascii "null"
    render (bool b) = if b then ascii "true" else ascii "false"
    render (int i) = int_text i
    render (uint u) = decimal u
    render (float f) = float_text f
    render (str s) = quoted s
    render (bytes b) = b'[' ∷ (bytes_text true b ++ (b']' ∷ []))
    render (array a) = b'[' ∷ (render_items true a ++ (b']' ∷ []))
    render (object o) = b'{' ∷ (render_fields true o ++ (b'}' ∷ []))

    pub render_items : Bool → Items F → Bytes
    render_items first no_items = []
    render_items first (item v a) = comma first ++ (render v ++ render_items false a)

    pub render_fields : Bool → Fields F → Bytes
    render_fields first no_fields = []
    render_fields first (field k v o) =
        comma first ++ (quoted k ++ (b':' ∷ (render v ++ render_fields false o)))

  write_json_f64-text : (out : Bytes) (f : F) → write_json_f64 text out f ≡ out ++ float_text f
  unfolding write_json_f64 float_text
  write_json_f64-text out f = ground arith

  -- The encoder after some text, with the flags as given.
  abbrev at : Bytes → List Bool → JsonEncoder
  at out first = record { out = out; first = first }

  abbrev flag_items : Bool → Items F → Bool
  flag_items b no_items = b
  flag_items b (item v a) = flag_items false a

  abbrev flag_fields : Bool → Fields F → Bool
  flag_fields b no_fields = b
  flag_fields b (field k v o) = flag_fields false o

  sep_lem :
      (out : Bytes) (b : Bool) (outer : List Bool)
      → sep (at out (b ∷ outer)) ≡ at (out ++ comma b) (false ∷ outer)
  unfolding sep sep_first push
  sep_lem out true outer = ap (λ l. at l (false ∷ outer)) (sym (append-nil out))
  sep_lem out false outer = refl

  key_text : (out k : Bytes) → write_string out k ++ (b':' ∷ []) ≡ out ++ (quoted k ++ (b':' ∷ []))
  key_text out k =
      ap (λ l. l ++ (b':' ∷ [])) (write_string-quoted out k)
      ∙ append_assoc out (quoted k) (b':' ∷ [])

  mutual
    unfolding push emit_value render

    emit_value-render :
        (v : Value F) (out : Bytes) (first : List Bool)
        → emit_value text (at out first) v ≡ at (out ++ render v) first
    emit_value-render null out first = refl
    emit_value-render (bool true) out first = refl
    emit_value-render (bool false) out first = refl
    emit_value-render (int i) out first = ap (λ l. at l first) (write_i64_lem out i)
    emit_value-render (uint u) out first = ap (λ l. at l first) (write_u64-decimal out u)
    emit_value-render (float f) out first = ap (λ l. at l first) (write_json_f64-text out f)
    emit_value-render (str s) out first = ap (λ l. at l first) (write_string-quoted out s)
    emit_value-render (bytes b) out first =
        ap (λ l. at l first)
          (ap (λ l. l ++ (b']' ∷ [])) (write_bytes-text b (out ++ (b'[' ∷ [])) false)
            ∙ append_assoc (out ++ (b'[' ∷ [])) (bytes_text true b) (b']' ∷ [])
            ∙ append_assoc out (b'[' ∷ []) (bytes_text true b ++ (b']' ∷ [])))
    emit_value-render (array a) out first =
        ap (end text b']') (emit_items-render a (out ++ (b'[' ∷ [])) true first)
        ∙ ap (λ l. at l first)
            (append_assoc (out ++ (b'[' ∷ [])) (render_items true a) (b']' ∷ [])
              ∙ append_assoc out (b'[' ∷ []) (render_items true a ++ (b']' ∷ [])))
    emit_value-render (object o) out first =
        ap (end text b'}') (emit_fields-render o (out ++ (b'{' ∷ [])) true first)
        ∙ ap (λ l. at l first)
            (append_assoc (out ++ (b'{' ∷ [])) (render_fields true o) (b'}' ∷ [])
              ∙ append_assoc out (b'{' ∷ []) (render_fields true o ++ (b'}' ∷ [])))

    emit_items-render :
        (a : Items F) (out : Bytes) (b : Bool) (outer : List Bool)
        → emit_items text (at out (b ∷ outer)) a
          ≡ at (out ++ render_items b a) (flag_items b a ∷ outer)
    emit_items-render no_items out b outer = ap (λ l. at l (b ∷ outer)) (sym (append-nil out))
    emit_items-render (item v a) out b outer =
        ap (λ e. emit_items text (emit_value text e v) a) (sep_lem out b outer)
        ∙ ap (λ e. emit_items text e a) (emit_value-render v (out ++ comma b) (false ∷ outer))
        ∙ emit_items-render a ((out ++ comma b) ++ render v) false outer
        ∙ ap (λ l. at l (flag_items false a ∷ outer))
            (append_assoc (out ++ comma b) (render v) (render_items false a)
              ∙ append_assoc out (comma b) (render v ++ render_items false a))

    emit_fields-render :
        (o : Fields F) (out : Bytes) (b : Bool) (outer : List Bool)
        → emit_fields text (at out (b ∷ outer)) o
          ≡ at (out ++ render_fields b o) (flag_fields b o ∷ outer)
    emit_fields-render no_fields out b outer = ap (λ l. at l (b ∷ outer)) (sym (append-nil out))
    emit_fields-render (field k v o) out b outer =
        ap (λ e. emit_fields text (emit_value text (key text k e) v) o) (sep_lem out b outer)
        ∙ ap (λ l. emit_fields text (emit_value text (at l (false ∷ outer)) v) o)
            (key_text (out ++ comma b) k)
        ∙ ap (λ e. emit_fields text e o)
            (emit_value-render v ((out ++ comma b) ++ (quoted k ++ (b':' ∷ []))) (false ∷ outer))
        ∙ emit_fields-render o (((out ++ comma b) ++ (quoted k ++ (b':' ∷ []))) ++ render v) false
            outer
        ∙ ap (λ l. at l (flag_fields false o ∷ outer))
            (append_assoc ((out ++ comma b) ++ (quoted k ++ (b':' ∷ []))) (render v)
                (render_fields false o)
              ∙ append_assoc (out ++ comma b) (quoted k ++ (b':' ∷ []))
                  (render v ++ render_fields false o)
              ∙ append_assoc out (comma b)
                  ((quoted k ++ (b':' ∷ [])) ++ (render v ++ render_fields false o))
              ∙ ap (λ l. out ++ (comma b ++ l))
                  (append_assoc (quoted k) (b':' ∷ []) (render v ++ render_fields false o)))

  -- The encoder, with its stack of flags for the separators, writes for every value the JSON text that
  -- `render` defines by recursion on the value.
  pub to_string-render : (v : Value F) → to_string text v ≡ render v
  unfolding to_string new
  to_string-render v = ap (λ e. e.out) (emit_value-render v [] [])
