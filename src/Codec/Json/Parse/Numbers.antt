-- ===== src/Codec/Json/Parse/Numbers.antt =====
-- The number parser on what the encoder writes.
use mathlib.Core.List.{append_assoc, append-nil}
use ferroly.Base.{
  ℕ, suc, ◌+◌, ◌*◌, ◌-◌, ◌^◌, ◌<◌, ◌≤◌, ◌≡◌, inl, inr, refl, ap, sym, ◌∙◌, Bool, true, false, ◌||◌,
  [], ◌∷◌, ◌++◌, none, some, ◌==◌, ==_iff, if◌then◌else◌, Bool-cases, any, All, arith,
}
use ferroly.Base.Bytes.{Bytes}
use ferroly.Codec.Value.{ℤ, pos, negsuc, Value, int, uint}
use ferroly.Codec.Fmt.{FloatText}
use ferroly.Codec.Fmt.Laws.{
  IsDigit, decimal, decimal-IsDigit, decimal-cons, read_digits, read_digits-decimal, int_text,
}
use ferroly.Codec.Json.Read.{ok, begins, tail}
use ferroly.Codec.Json.Read.Escapes.{at_rest}
use ferroly.Codec.Json.Parse.{
  is_digit, is_mark, from_digits, within, minus, map_int, parse_i64, parse_u64, Span, number_loop,
  number_span, number_of, give, as_int, as_uint, parse_number,
}

-- The bytes that the number loop takes.
abbrev pub IsNumberByte : ℕ → Type 0
IsNumberByte b = (is_digit b || is_mark b) ≡ true

-- The number loop stops in front of this text.
abbrev pub Stops : Bytes → Type 0
Stops [] = Unit {0}
Stops (b ∷ bs) = (is_digit b || is_mark b) ≡ false

abbrev span : Bytes → Bool → Bytes → Span
span t is_float rest = record { text = t; is_float = is_float; rest = rest }

or_assoc : (a b c : Bool) → ((a || b) || c) ≡ (a || (b || c))
or_assoc true b c = refl
or_assoc false b c = refl

or_false : (a : Bool) → (a || false) ≡ a
or_false true = refl
or_false false = refl

number_loop-stop :
    (acc : Bytes) (fl : Bool) (more : Bytes)
    → Stops more
    → number_loop acc fl more ≡ span acc fl more
unfolding number_loop
number_loop-stop acc fl [] h = refl
number_loop-stop acc fl (b ∷ more) h = rw (number_loop, h) refl

number_loop-All :
    (bs acc : Bytes) (fl : Bool) (more : Bytes)
    → All IsNumberByte bs
    → Stops more
    → number_loop acc fl (bs ++ more) ≡ span (acc ++ bs) (fl || any is_mark bs) more
unfolding number_loop
number_loop-All [] acc fl more h stop =
    number_loop-stop acc fl more stop
    ∙ ap (λ t. span t fl more) (sym (append-nil acc))
    ∙ ap (λ k. span (acc ++ []) k more) (sym (or_false fl))
number_loop-All (b ∷ bs) acc fl more (here, h) stop =
    rw (number_loop, here)
      (number_loop-All bs (acc ++ (b ∷ [])) (fl || is_mark b) more h stop
        ∙ ap (λ t. span t ((fl || is_mark b) || any is_mark bs) more) (append_assoc acc (b ∷ []) bs)
        ∙ ap (λ k. span (acc ++ (b ∷ bs)) k more) (or_assoc fl (is_mark b) (any is_mark bs)))

-- Whether a number is one with a point or an exponent.
unfoldable pub has_mark : Bytes → Bool
has_mark t = if begins b'-' t then any is_mark (tail t) else any is_mark t

module _ (bs : Bytes) where
  number_span-minus :
      begins b'-' bs ≡ true → number_span bs ≡ number_loop (b'-' ∷ []) false (tail bs)
  unfolding number_span
  number_span-minus h = rw (number_span, h) refl

  number_span-plain : begins b'-' bs ≡ false → number_span bs ≡ number_loop [] false bs
  unfolding number_span
  number_span-plain h = rw (number_span, h) refl

  pub has_mark-minus : begins b'-' bs ≡ true → has_mark bs ≡ any is_mark (tail bs)
  unfolding has_mark
  has_mark-minus h = rw (has_mark, h) refl

  pub has_mark-plain : begins b'-' bs ≡ false → has_mark bs ≡ any is_mark bs
  unfolding has_mark
  has_mark-plain h = rw (has_mark, h) refl

number_span-text :
    (c : ℕ) (cs more : Bytes)
    → All IsNumberByte (c ∷ cs)
    → Stops more
    → number_span ((c ∷ cs) ++ more) ≡ span (c ∷ cs) (has_mark (c ∷ cs)) more
unfolding begins
number_span-text c cs more h stop = elim (Bool-cases (c == b'-')) [
  | inl is ↦
      number_span-minus ((c ∷ cs) ++ more) is
      ∙ number_loop-All cs (b'-' ∷ []) false more h.1 stop
      ∙ ap (λ k. span (k ∷ cs) (any is_mark cs) more) (sym ((==_iff c b'-').0 is))
      ∙ ap (λ k. span (c ∷ cs) k more) (sym (has_mark-minus (c ∷ cs) is))
  | inr other ↦
      number_span-plain ((c ∷ cs) ++ more) other
      ∙ number_loop-All (c ∷ cs) [] false more h stop
      ∙ ap (λ k. span (c ∷ cs) k more) (sym (has_mark-plain (c ∷ cs) other))
]

from_digits-read_digits :
    (n : ℕ) (ds : Bytes) → All IsDigit ds → from_digits n ds ≡ some (read_digits n ds)
unfolding from_digits
from_digits-read_digits n [] h = refl
from_digits-read_digits n (d ∷ ds) (here, h) =
    let is : is_digit d ≡ true = ground arith in
    rw is (from_digits-read_digits (n * 10 + (d - b'0')) ds h)

from_digits-decimal : (u : ℕ) → u < 10 ^ 20 → from_digits 0 (decimal u) ≡ some u
from_digits-decimal u h =
    from_digits-read_digits 0 (decimal u) (decimal-IsDigit u) ∙ ap some (read_digits-decimal u h)

digits-marks : (ds : Bytes) → All IsDigit ds → any is_mark ds ≡ false
digits-marks [] h = refl
digits-marks (d ∷ ds) (here, h) = rw (digits-marks ds h) (ground arith)

-- The numbers of an `i64`.
abbrev pub Fits : ℤ → Type 0
Fits (pos n) = n < 2 ^ 63
Fits (negsuc n) = n < 2 ^ 63

within-le : (most n : ℕ) → n ≤ most → within most (some n) ≡ some n
within-le most n h = ground arith

within-none : (most n : ℕ) → most < n → within most (some n) ≡ none
within-none most n h = ground arith

parse_u64-digit :
    (d : ℕ) (ds : Bytes)
    → IsDigit d
    → parse_u64 (d ∷ ds) ≡ within (2 ^ 64 - 1) (from_digits 0 (d ∷ ds))
unfolding parse_u64
parse_u64-digit d ds h = let plus : (d == b'+') ≡ false = ground arith in rw plus refl

parse_i64-digit :
    (d : ℕ) (ds : Bytes)
    → IsDigit d
    → parse_i64 (d ∷ ds) ≡ map_int pos (within (2 ^ 63 - 1) (from_digits 0 (d ∷ ds)))
unfolding parse_i64
parse_i64-digit d ds h =
    let plus : (d == b'+') ≡ false = ground arith in
    let less : (d == b'-') ≡ false = ground arith in rw (less, plus) refl

parse_u64-decimal : (u : ℕ) → u < 2 ^ 64 → parse_u64 (decimal u) ≡ some u
parse_u64-decimal u h =
    let (d, ds, e, digit) = decimal-cons u in
    ap parse_u64 e
    ∙ parse_u64-digit d ds digit
    ∙ ap (λ t. within (2 ^ 64 - 1) (from_digits 0 t)) (sym e)
    ∙ ap (within (2 ^ 64 - 1)) (from_digits-decimal u (omega arith))
    ∙ within-le (2 ^ 64 - 1) u (omega arith)

parse_i64-decimal :
    (u : ℕ) → u < 2 ^ 64 → parse_i64 (decimal u) ≡ map_int pos (within (2 ^ 63 - 1) (some u))
parse_i64-decimal u h =
    let (d, ds, e, digit) = decimal-cons u in
    ap parse_i64 e
    ∙ parse_i64-digit d ds digit
    ∙ ap (λ t. map_int pos (within (2 ^ 63 - 1) (from_digits 0 t))) (sym e)
    ∙ ap (λ o. map_int pos (within (2 ^ 63 - 1) o)) (from_digits-decimal u (omega arith))

parse_i64-pos : (n : ℕ) → n < 2 ^ 63 → parse_i64 (decimal n) ≡ some (pos n)
parse_i64-pos n h =
    parse_i64-decimal n (omega arith) ∙ ap (map_int pos) (within-le (2 ^ 63 - 1) n (omega arith))

parse_i64-big : (u : ℕ) → 2 ^ 63 ≤ u → u < 2 ^ 64 → parse_i64 (decimal u) ≡ none
parse_i64-big u big h =
    parse_i64-decimal u h ∙ ap (map_int pos) (within-none (2 ^ 63 - 1) u (omega arith))

parse_i64-negsuc : (n : ℕ) → n < 2 ^ 63 → parse_i64 (b'-' ∷ decimal (suc n)) ≡ some (negsuc n)
unfolding parse_i64 minus
parse_i64-negsuc n h =
    let (d, ds, e, digit) = decimal-cons (suc n) in
    ap (λ t. parse_i64 (b'-' ∷ t)) e
    ∙ ap (λ t. map_int minus (within (2 ^ 63) (from_digits 0 t))) (sym e)
    ∙ ap (λ o. map_int minus (within (2 ^ 63) o)) (from_digits-decimal (suc n) (omega arith))
    ∙ ap (map_int minus) (within-le (2 ^ 63) (suc n) (omega arith))

pub IsDigit-IsNumberByte : (ds : Bytes) → All IsDigit ds → All IsNumberByte ds
IsDigit-IsNumberByte [] h = tt
IsDigit-IsNumberByte (d ∷ ds) (here, h) = (ground arith, IsDigit-IsNumberByte ds h)

module _ {F : Type 0} (text : FloatText F) where
  -- A text that stands for a value, as the parser takes it.
  unfoldable pub Stands : Bytes → Value F → Type 0
  Stands t v =
      (c : ℕ) × (cs : Bytes) × (t ≡ c ∷ cs)
      × ((c == b'-' || is_digit c) ≡ true)
      × All IsNumberByte (c ∷ cs)
      × (number_of text (c ∷ cs) (has_mark (c ∷ cs)) ≡ some v)

  pub parse_number-Stands :
      (t more : Bytes) (v : Value F) (d : ℕ)
      → Stands t v
      → Stops more
      → parse_number text (at_rest (t ++ more) d) ≡ ok v (at_rest more d)
  unfolding Stands parse_number give
  parse_number-Stands t more v d (c, cs, e, starts, number, value) stop =
      ap (λ l. parse_number text (at_rest (l ++ more) d)) e
      ∙ ap (λ s. give text s.text (number_of text s.text s.is_float) (at_rest s.rest d))
          (number_span-text c cs more number stop)
      ∙ ap (λ o. give text (c ∷ cs) o (at_rest more d)) value

  Stands-decimal :
      (u : ℕ) (v : Value F) → number_of text (decimal u) false ≡ some v → Stands (decimal u) v
  unfolding Stands has_mark begins
  Stands-decimal u v value =
      let (d, ds, e, digit) = decimal-cons u in
      let whole : All IsDigit (decimal u) = decimal-IsDigit u in
      let digits : All IsDigit (d ∷ ds) = rw e at whole in
      let other : (d == b'-') ≡ false = ground arith in
      (
        d,
        ds,
        e,
        ground arith,
        IsDigit-IsNumberByte (d ∷ ds) digits,
        ap (number_of text (d ∷ ds)) (has_mark-plain (d ∷ ds) other ∙ digits-marks (d ∷ ds) digits)
            ∙ ap (λ t. number_of text t false) (sym e)
            ∙ value,
      )

  pub int_text-Stands : (i : ℤ) → Fits i → Stands (int_text i) (int i)
  unfolding number_of as_int Stands has_mark begins
  int_text-Stands (pos n) h =
      Stands-decimal n (int (pos n)) (ap (as_int text (decimal n)) (parse_i64-pos n h))
  int_text-Stands (negsuc n) h = (
    b'-',
    decimal (suc n),
    refl,
    refl,
    (refl, IsDigit-IsNumberByte (decimal (suc n)) (decimal-IsDigit (suc n))),
    ap (number_of text (b'-' ∷ decimal (suc n))) (
          has_mark-minus (b'-' ∷ decimal (suc n)) refl
          ∙ digits-marks (decimal (suc n)) (decimal-IsDigit (suc n)))
        ∙ ap (as_int text (b'-' ∷ decimal (suc n))) (parse_i64-negsuc n h),
  )

  pub decimal-Stands : (u : ℕ) → 2 ^ 63 ≤ u → u < 2 ^ 64 → Stands (decimal u) (uint u)
  unfolding number_of as_int as_uint
  decimal-Stands u big h = Stands-decimal u (uint u) (
      ap (as_int text (decimal u)) (parse_i64-big u big h)
      ∙ ap (as_uint text (decimal u)) (parse_u64-decimal u h))
