-- ===== src/Codec/Json/Write.antt =====
-- The encoder of crates/ferroly/src/codec/json.rs, driven by `emit_value` of codec/traits.rs.
pub mod Render
use ferroly.Base.{
  ℕ, ◌+◌, ◌-◌, ◌/◌, ◌%◌, ◌<◌, Bool, true, false, List, [], ◌∷◌, ◌++◌, Option, none, some, ◌==◌, ltb,
  if◌then◌else◌,
}
use ferroly.Base.Bytes.{Bytes, ascii}
use ferroly.Codec.Value.{
  Value, Items, Fields, null, bool, int, uint, float, str, bytes, array, object, no_items, item,
  no_fields, field,
}
use ferroly.Codec.Fmt.{FloatText, write_u64, write_i64, write_json_f64}

pub record JsonEncoder : Type 0 where
  pub out : Bytes
  pub first : List Bool

unfoldable pub new : JsonEncoder
new = record { out = []; first = [] }

pub push : JsonEncoder → Bytes → JsonEncoder
push e s = record e { out = e.out ++ s }

-- `sep`: the comma before every entry but the first of its container.
sep_first : JsonEncoder → List Bool → JsonEncoder
unfolding push
sep_first e [] = e
sep_first e (true ∷ outer) = record e { first = false ∷ outer }
sep_first e (false ∷ outer) = push e (b',' ∷ [])

unfoldable pub sep : JsonEncoder → JsonEncoder
unfolding sep_first
sep e = sep_first e e.first

-- `first.pop()`.
abbrev pop : List Bool → List Bool
pop [] = []
pop (b ∷ outer) = outer

-- A hexadecimal digit in lower case, as `{:x}` writes it.
unfoldable pub lower_hex : ℕ → ℕ
lower_hex n = if ltb n 10 then n + b'0' else n - 10 + b'a'

-- What `write_string` writes in place of a byte, if it does not copy it.
unfoldable pub escape_of : ℕ → Option Bytes
unfolding lower_hex
escape_of b =
    if b == b'"'
    then some (b'\\' ∷ b'"' ∷ [])
    else if b == b'\\'
    then some (b'\\' ∷ b'\\' ∷ [])
    else if b == b'\n'
    then some (b'\\' ∷ b'n' ∷ [])
    else if b == b'\r'
    then some (b'\\' ∷ b'r' ∷ [])
    else if b == b'\t'
    then some (b'\\' ∷ b't' ∷ [])
    else if b == 0x08
    then some (b'\\' ∷ b'b' ∷ [])
    else if b == 0x0c
    then some (b'\\' ∷ b'f' ∷ [])
    else if ltb b 0x20
    then some (
        b'\\'
        ∷ b'u'
        ∷ lower_hex (b / 4096 % 16)
        ∷ lower_hex (b / 256 % 16)
        ∷ lower_hex (b / 16 % 16)
        ∷ lower_hex (b % 16)
        ∷ [])
    else none

-- The loop of `write_string`; `run` is the clean run that waits to be copied.
write_from : Bytes → Bytes → Bytes → Bytes
unfolding escape_of
write_from out run [] = out ++ run
write_from out run (b ∷ s) = elim (escape_of b) [
  | none ↦ write_from out (run ++ (b ∷ [])) s
  | some e ↦ write_from (out ++ (run ++ e)) [] s
]

unfoldable pub write_string : Bytes → Bytes → Bytes
unfolding write_from
write_string out s = write_from (out ++ (b'"' ∷ [])) [] s ++ (b'"' ∷ [])

-- The loop of `encode_bytes`; `more` tells whether an entry stands before.
pub write_bytes : Bytes → Bool → Bytes → Bytes
write_bytes out more [] = out
write_bytes out more (b ∷ bs) =
    write_bytes (write_u64 (if more then out ++ (b',' ∷ []) else out) b) true bs

module _ {F : Type 0} (text : FloatText F) where
  abbrev on_out : (Bytes → Bytes) → JsonEncoder → JsonEncoder
  on_out w e = record e { out = w e.out }

  abbrev begin : ℕ → JsonEncoder → JsonEncoder
  begin c e = record { out = e.out ++ (c ∷ []); first = true ∷ e.first }

  abbrev end : ℕ → JsonEncoder → JsonEncoder
  end c e = record { out = e.out ++ (c ∷ []); first = pop e.first }

  abbrev key : Bytes → JsonEncoder → JsonEncoder
  key k e = record e { out = write_string e.out k ++ (b':' ∷ []) }

  -- `emit_value`, with the loops of its two containers.
  unfoldable mutual
    pub emit_value : JsonEncoder → Value F → JsonEncoder
    emit_value e null = push e (ascii "null")
    emit_value e (bool b) = push e (if b then ascii "true" else ascii "false")
    emit_value e (int i) = on_out (λ o. write_i64 o i) e
    emit_value e (uint u) = on_out (λ o. write_u64 o u) e
    emit_value e (float f) = on_out (λ o. write_json_f64 text o f) e
    emit_value e (str s) = on_out (λ o. write_string o s) e
    emit_value e (bytes b) = on_out (λ o. write_bytes (o ++ (b'[' ∷ [])) false b ++ (b']' ∷ [])) e
    emit_value e (array a) = end b']' (emit_items (begin b'[' e) a)
    emit_value e (object o) = end b'}' (emit_fields (begin b'{' e) o)

    pub emit_items : JsonEncoder → Items F → JsonEncoder
    emit_items e no_items = e
    emit_items e (item v a) = emit_items (emit_value (sep e) v) a

    pub emit_fields : JsonEncoder → Fields F → JsonEncoder
    emit_fields e no_fields = e
    emit_fields e (field k v o) = emit_fields (emit_value (key k (sep e)) v) o

  unfoldable pub to_string : Value F → Bytes
  unfolding new
  to_string v = (emit_value new v).out
