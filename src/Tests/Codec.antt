-- ===== src/Tests/Codec.antt =====
-- Runs of crates/ferroly/src/codec.
use ferroly.Base.{
  ◌^◌, ◌≡◌, ◌≢◌, refl, Bool, true, false, [], ◌∷◌, some, none, if◌then◌else◌, ◌≤◌, arith,
}
use ferroly.Base.Bytes.{ascii, bytes_eq}
use ferroly.Codec.Value.{
  pos, negsuc, Value, null, int, uint, float, array, object, no_items, item, no_fields, field,
}
use ferroly.Codec.Fmt.{FloatText}
use ferroly.Codec.Json.Write.{to_string}
use ferroly.Codec.Json.Write.Render.{render, to_string-render}
use ferroly.Codec.Json.Read.{ok, err, spent, nesting_too_deep, enter, leave}
use ferroly.Codec.Json.Read.Escapes.{at_rest}
use ferroly.Codec.Json.Parse.{start, parse_array, parse_number, separator, from_str}
use ferroly.Codec.Json.Parse.Floats.{DisplaysBack}
use ferroly.Codec.Json.Readable.{IsReadable}
use ferroly.Codec.Json.RoundTrip.{from_str-to_string}
use ferroly.Codec.Json.Height.{height}
use ferroly.Codec.Json.Total.{from_str-fuel_for, height-from_str}
use ferroly.Codec.Json.Deep.{brackets, from_str-brackets}

-- Two floats, 1.5 and -2, with their text.
abbrev pair : FloatText Bool
pair = record {
  display = λ f. if f then ascii "1.5" else ascii "-2";
  from_str = λ t.
      if bytes_eq t (ascii "1.5")
      then some true
      else if bytes_eq t (ascii "-2")
      then some false
      else if bytes_eq t (ascii "-2.0")
      then some false
      else none;
  is_finite = λ f. true;
}

half_back : DisplaysBack pair true
unfolding bytes_eq
half_back = record {
  minus = false;
  first = b'1';
  whole = [];
  frac = b'5' ∷ [];
  finite = refl;
  displayed = refl;
  whole_digits = omega arith;
  frac_digits = omega arith;
  back = refl;
  back_pointed = λ e. cc;
}

two_back : DisplaysBack pair false
unfolding bytes_eq
two_back = record {
  minus = true;
  first = b'2';
  whole = [];
  frac = [];
  finite = refl;
  displayed = refl;
  whole_digits = omega arith;
  frac_digits = tt;
  back = refl;
  back_pointed = λ e. refl;
}

abbrev floats : Value Bool
floats = array (item (float true) (item (float false) (item null no_items)))

abbrev document : Value Bool
document = object (
    field (ascii "a\"\n") floats (
      field (ascii "n") (int (negsuc 6))
        (field [] (object no_fields) (field (ascii "u") (uint (2 ^ 63)) no_fields))))

document-IsReadable : IsReadable pair 128 document
unfolding IsReadable
document-IsReadable = (
  omega arith,
  (
    (omega arith, (half_back, (two_back, (tt, tt)))),
    (omega arith, ((omega arith, tt), ((omega arith, omega arith), tt))),
  ),
)

from_str-to_string_example : from_str pair (to_string pair document) ≡ ok document (at_rest [] 0)
from_str-to_string_example = from_str-to_string pair document document-IsReadable

to_string-render_example : to_string pair document ≡ render pair document
to_string-render_example = to_string-render pair document

from_str-fuel_for_example : from_str pair (ascii "[[1, {\"k\": tru") ≢ spent
from_str-fuel_for_example = from_str-fuel_for pair (ascii "[[1, {\"k\": tru")

abbrev nested : Value Bool
nested = array (item (array (item (int (pos 1)) no_items)) no_items)

nested_read : from_str pair (ascii " [[ 1 ]] ") ≡ ok nested (at_rest [] 0)
unfolding from_str start enter parse_array parse_number separator leave
nested_read = refl

height-from_str_example : (height nested ≤ 128) × ((at_rest [] 0).rest ≡ [])
height-from_str_example = height-from_str pair (ascii " [[ 1 ]] ") nested (at_rest [] 0) nested_read

from_str-brackets_example : from_str pair (brackets 129 (ascii "]")) ≡ err nesting_too_deep
from_str-brackets_example = from_str-brackets pair (ascii "]")
