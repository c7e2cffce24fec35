-- ===== src/Codec/Json/Parse.antt =====
-- Numbers, literals and values in the parser of crates/ferroly/src/codec/json.rs, and `from_str`. The
-- parsing of numbers of the standard library is `parse_i64`, `parse_u64` and a parameter for floats.
pub mod Numbers
pub mod Floats
use ferroly.Base.{
  ℕ, zero, suc, ◌+◌, ◌-◌, ◌*◌, ◌^◌, Bool, true, false, not, ◌&&◌, ◌||◌, List, [], ◌∷◌, ◌++◌, Option,
  none, some, ◌==◌, ltb, leb, if◌then◌else◌, length, drop,
}
use ferroly.Base.Bytes.{Bytes, ascii}
use ferroly.Codec.Value.{
  ℤ, pos, negsuc, Value, Items, Fields, null, bool, int, uint, float, str, array, object, no_items,
  item, no_fields, field,
}
use ferroly.Codec.Fmt.{FloatText}
use ferroly.Codec.Json.Read.{
  Error, expected, invalid_number, trailing_characters, unexpected_character, unexpected_end,
  object_separator, array_separator, invalid_literal, Parser, Read, ok, err, spent, M, ◌>>=◌, ◌>>◌,
  pure, fail, enter, leave, head, tail, skip_ws, begins, expect, skip_if, bump, parse_string,
}

abbrev pub is_digit : ℕ → Bool
is_digit b = leb b'0' b && leb b b'9'

-- The value of a text of digits, added to `n` times a power of ten.
pub from_digits : ℕ → Bytes → Option ℕ
from_digits n [] = some n
from_digits n (b ∷ bs) =
    let rest = from_digits (n * 10 + (b - b'0')) bs in if is_digit b then rest else none

abbrev some_digits : Bytes → Option ℕ
some_digits [] = none
some_digits (b ∷ bs) = from_digits 0 (b ∷ bs)

abbrev within : ℕ → Option ℕ → Option ℕ
within most none = none
within most (some n) = if leb n most then some n else none

-- `-n`.
unfoldable pub minus : ℕ → ℤ
minus zero = pos 0
minus (suc n) = negsuc n

abbrev pub map_int : (ℕ → ℤ) → Option ℕ → Option ℤ
map_int f none = none
map_int f (some n) = some (f n)

-- `text.parse::<i64>()`.
unfoldable pub parse_i64 : Bytes → Option ℤ
unfolding from_digits minus
parse_i64 [] = none
parse_i64 (b ∷ bs) =
    if b == b'-'
    then map_int minus (within (2 ^ 63) (some_digits bs))
    else if b == b'+'
    then map_int pos (within (2 ^ 63 - 1) (some_digits bs))
    else map_int pos (within (2 ^ 63 - 1) (some_digits (b ∷ bs)))

-- `text.parse::<u64>()`.
unfoldable pub parse_u64 : Bytes → Option ℕ
unfolding from_digits
parse_u64 [] = none
parse_u64 (b ∷ bs) =
    if b == b'+'
    then within (2 ^ 64 - 1) (some_digits bs)
    else within (2 ^ 64 - 1) (some_digits (b ∷ bs))

abbrev pub is_mark : ℕ → Bool
is_mark b = b == b'.' || (b == b'e' || (b == b'E' || (b == b'+' || b == b'-')))

-- The span of a number.
pub record Span : Type 0 where
  pub text : Bytes
  pub is_float : Bool
  pub rest : Bytes

-- The loop of `parse_number`.
unfoldable pub number_loop : Bytes → Bool → Bytes → Span
number_loop text is_float [] = record { text = text; is_float = is_float; rest = [] }
number_loop text is_float (b ∷ bs) = elim (is_digit b || is_mark b) [
  | true ↦ number_loop (text ++ (b ∷ [])) (is_float || is_mark b) bs
  | false ↦ record { text = text; is_float = is_float; rest = b ∷ bs }
]

unfoldable pub number_span : Bytes → Span
unfolding number_loop begins
number_span bs =
    if begins b'-' bs then number_loop (b'-' ∷ []) false (tail bs) else number_loop [] false bs

module _ {F : Type 0} (text : FloatText F) where
  unfoldable pub as_float : Bytes → Option F → Option (Value F)
  as_float t none = none
  as_float t (some f) = some (float f)

  unfoldable pub as_uint : Bytes → Option ℕ → Option (Value F)
  unfolding as_float
  as_uint t (some u) = some (uint u)
  as_uint t none = as_float t (text.from_str t)

  unfoldable pub as_int : Bytes → Option ℤ → Option (Value F)
  unfolding as_uint parse_u64
  as_int t (some i) = some (int i)
  as_int t none = as_uint t (parse_u64 t)

  -- The value of the span, `none` for an invalid number.
  unfoldable pub number_of : Bytes → Bool → Option (Value F)
  unfolding as_float as_uint as_int parse_i64
  number_of t is_float = if is_float then as_float t (text.from_str t) else as_int t (parse_i64 t)

  unfoldable pub give : Bytes → Option (Value F) → M (Value F)
  give t none = fail (invalid_number t)
  give t (some v) = pure v

  unfoldable pub parse_number : M (Value F)
  unfolding number_span number_of give
  parse_number p =
      let s = number_span p.rest in
      give s.text (number_of s.text s.is_float) (record p { rest = s.rest })

  -- `take_literal`.
  unfoldable pub starts_with : Bytes → Bytes → Bool
  starts_with bs [] = true
  starts_with [] (c ∷ lit) = false
  starts_with (b ∷ bs) (c ∷ lit) = b == c && starts_with bs lit

  abbrev advance : Bytes → Parser → Parser
  advance lit p = record p { rest = drop (length lit) p.rest }

  unfoldable pub parse_bool : M (Value F)
  unfolding starts_with
  parse_bool p =
      if starts_with p.rest (ascii "true")
      then ok (bool true) (advance (ascii "true") p)
      else if starts_with p.rest (ascii "false")
      then ok (bool false) (advance (ascii "false") p)
      else err invalid_literal

  unfoldable pub parse_null : M (Value F)
  unfolding starts_with
  parse_null p =
      if starts_with p.rest (ascii "null")
      then ok null (advance (ascii "null") p)
      else err invalid_literal

  -- `parse_object` and `parse_array`, with their loops as arguments.
  unfoldable pub parse_object : M (Fields F) → M (Value F)
  unfolding expect skip_ws skip_if
  parse_object loop = do
    expect b'{'
    skip_ws
    closed ← skip_if b'}'
    if closed then pure (object no_fields) else (loop >>= λ o. pure (object o))

  unfoldable pub parse_array : M (Items F) → M (Value F)
  unfolding expect skip_ws skip_if
  parse_array loop = do
    expect b'['
    skip_ws
    closed ← skip_if b']'
    if closed then pure (array no_items) else (loop >>= λ a. pure (array a))

  -- The separator behind an entry: whether another one follows.
  unfoldable pub separator : ℕ → Error → M Bool
  unfolding begins
  separator close e p =
      if begins b',' p.rest
      then ok true (record p { rest = tail p.rest })
      else if begins close p.rest
      then ok false (record p { rest = tail p.rest })
      else err e

  -- The arms of `parse_value`.
  pub data Start : Type 0 where
    starts_object starts_array starts_string starts_bool starts_null starts_number : Start
    starts_other : ℕ → Start
    starts_nothing : Start

  unfoldable pub start : Bytes → Start
  start [] = starts_nothing
  start (b ∷ bs) =
      if b == b'{'
      then starts_object
      else if b == b'['
      then starts_array
      else if b == b'"'
      then starts_string
      else if b == b't' || b == b'f'
      then starts_bool
      else if b == b'n'
      then starts_null
      else if b == b'-' || is_digit b
      then starts_number
      else starts_other b

  abbrev string_value : M (Value F)
  string_value = parse_string >>= λ s. pure (str s)

  unfoldable mutual
    pub parse_value : ℕ → M (Value F)
    parse_value zero p = spent
    parse_value (suc fuel) p =
        (skip_ws >> λ q. elim (start q.rest) [
          | starts_object ↦ (enter >> (parse_object (parse_fields fuel) >>= λ v. leave >> pure v)) q
          | starts_array ↦ (enter >> (parse_array (parse_items fuel) >>= λ v. leave >> pure v)) q
          | starts_string ↦ string_value q
          | starts_bool ↦ parse_bool q
          | starts_null ↦ parse_null q
          | starts_number ↦ parse_number q
          | starts_other b ↦ err (unexpected_character b)
          | starts_nothing ↦ err unexpected_end
        ])
          p

    -- The loop of `parse_object`.
    pub parse_fields : ℕ → M (Fields F)
    parse_fields zero p = spent
    parse_fields (suc fuel) p =
        (do
          skip_ws
          k ← parse_string
          skip_ws
          expect b':'
          v ← parse_value fuel
          skip_ws
          more ← separator b'}' object_separator
          if more
              then (parse_fields fuel >>= λ o. pure (field k v o))
              else pure (field k v no_fields))
          p

    -- The loop of `parse_array`.
    pub parse_items : ℕ → M (Items F)
    parse_items zero p = spent
    parse_items (suc fuel) p =
        (do
          v ← parse_value fuel
          skip_ws
          more ← separator b']' array_separator
          if more then (parse_items fuel >>= λ a. pure (item v a)) else pure (item v no_items))
          p

  -- Enough fuel for an input: two units for each byte, and two more.
  abbrev pub fuel_for : Bytes → ℕ
  fuel_for input = 2 * length input + 2

  abbrev pub at_end : Read (Value F) → Read (Value F)
  at_end r = elim r [
    | ok v q ↦ elim q.rest [ [] ↦ ok v q | b ∷ bs ↦ err trailing_characters ]
    | err e ↦ err e
    | spent ↦ spent
  ]

  unfoldable pub from_str : Bytes → Read (Value F)
  unfolding skip_ws parse_value
  from_str input = at_end (
      (skip_ws >> (parse_value (fuel_for input) >>= λ v. skip_ws >> pure v))
        (record { rest = input; depth = 0 }))
