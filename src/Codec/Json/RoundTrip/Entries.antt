-- ===== src/Codec/Json/RoundTrip/Entries.antt =====
-- The loops of the parser over the entries of a container, one entry at a time.
use ferroly.Base.{ℕ, suc, ◌≡◌, ◌∙◌, ◌∷◌, ◌++◌}
use ferroly.Base.Bytes.{Bytes}
use ferroly.Codec.Value.{Value, Items, Fields, no_items, item, no_fields, field}
use ferroly.Codec.Fmt.{FloatText}
use ferroly.Codec.Json.Write.Render.{quoted}
use ferroly.Codec.Json.Read.{
  Parser, ok, pure, is_space, trim, skip_ws, expect, begins, parse_string,
}
use ferroly.Codec.Json.Read.Escapes.{at_rest, bind_ok}
use ferroly.Codec.Json.Read.Strings.{parse_string-quoted}
use ferroly.Codec.Json.Parse.{parse_value, parse_items, parse_fields, separator}

module _ {F : Type 0} (text : FloatText F) (fuel d : ℕ) (v : Value F) (ts : Bytes) where
  pub parse_items-last :
      (more : Bytes)
      → parse_value text fuel (at_rest ts d) ≡ ok v (at_rest (b']' ∷ more) d)
      → parse_items text (suc fuel) (at_rest ts d) ≡ ok (item v no_items) (at_rest more d)
  unfolding parse_value skip_ws trim is_space separator begins
  parse_items-last more e =
      bind_ok (parse_value text fuel) _ (at_rest ts d) (at_rest (b']' ∷ more) d) v e

  pub parse_items-more :
      (ts' : Bytes) (a : Items F) (q : Parser)
      → parse_value text fuel (at_rest ts d) ≡ ok v (at_rest (b',' ∷ ts') d)
      → parse_items text fuel (at_rest ts' d) ≡ ok a q
      → parse_items text (suc fuel) (at_rest ts d) ≡ ok (item v a) q
  unfolding parse_value skip_ws trim is_space separator begins
  parse_items-more ts' a q e more =
      bind_ok (parse_value text fuel) _ (at_rest ts d) (at_rest (b',' ∷ ts') d) v e
      ∙ bind_ok (parse_items text fuel) (λ x. pure (item v x)) (at_rest ts' d) q a more

  module _ (k : Bytes) where
    abbrev named : Parser
    named = at_rest (quoted k ++ (b':' ∷ ts)) d

    pub parse_fields-last :
        (more : Bytes)
        → parse_value text fuel (at_rest ts d) ≡ ok v (at_rest (b'}' ∷ more) d)
        → parse_fields text (suc fuel) named ≡ ok (field k v no_fields) (at_rest more d)
    unfolding parse_value skip_ws trim is_space separator begins quoted expect
    parse_fields-last more e =
        bind_ok parse_string _ named (at_rest (b':' ∷ ts) d) k (parse_string-quoted k (b':' ∷ ts) d)
        ∙ bind_ok (parse_value text fuel) _ (at_rest ts d) (at_rest (b'}' ∷ more) d) v e

    pub parse_fields-more :
        (ts' : Bytes) (o : Fields F) (q : Parser)
        → parse_value text fuel (at_rest ts d) ≡ ok v (at_rest (b',' ∷ ts') d)
        → parse_fields text fuel (at_rest ts' d) ≡ ok o q
        → parse_fields text (suc fuel) named ≡ ok (field k v o) q
    unfolding parse_value skip_ws trim is_space separator begins quoted expect
    parse_fields-more ts' o q e more =
        bind_ok parse_string _ named (at_rest (b':' ∷ ts) d) k (parse_string-quoted k (b':' ∷ ts) d)
        ∙ bind_ok (parse_value text fuel) _ (at_rest ts d) (at_rest (b',' ∷ ts') d) v e
        ∙ bind_ok (parse_fields text fuel) (λ x. pure (field k v x)) (at_rest ts' d) q o more
