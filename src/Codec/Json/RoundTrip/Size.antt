-- ===== src/Codec/Json/RoundTrip/Size.antt =====
-- The calls that reading a text takes, against its length.
use ferroly.Base.{◌+◌, ◌*◌, ◌≤◌, false, [], ◌∷◌, ◌++◌, length, length-append, arith}
use ferroly.Codec.Value.{
  Value, Items, Fields, null, bool, int, uint, float, str, bytes, array, object, no_items, item,
  no_fields, field,
}
use ferroly.Codec.Fmt.{FloatText}
use ferroly.Codec.Json.Write.Render.{quoted, render, render_items, render_fields}
use ferroly.Codec.Json.Readable.{size, size_items, size_fields}

module _ {F : Type 0} (text : FloatText F) where
  pub size-le : (v : Value F) → 1 ≤ size v
  unfolding size
  size-le null = omega arith
  size-le (bool b) = omega arith
  size-le (int i) = omega arith
  size-le (uint u) = omega arith
  size-le (float f) = omega arith
  size-le (str s) = omega arith
  size-le (bytes b) = omega arith
  size-le (array a) = omega arith
  size-le (object o) = omega arith

  mutual
    unfolding render size

    pub size-length : (v : Value F) → size v ≤ 2 * length (render text v) + 1
    size-length null = omega arith
    size-length (bool b) = omega arith
    size-length (int i) = omega arith
    size-length (uint u) = omega arith
    size-length (float f) = omega arith
    size-length (str s) = omega arith
    size-length (bytes b) = omega arith
    size-length (array no_items) = omega arith
    size-length (array (item v a)) = omega (
      arith,
      size-length v,
      items-length a,
      length-append (render text v ++ render_items text false a) (b']' ∷ []),
      length-append (render text v) (render_items text false a),
    )
    size-length (object no_fields) = omega arith
    size-length (object (field k v o)) = omega (
      arith,
      size-length v,
      fields-length o,
      length-append (quoted k ++ (b':' ∷ (render text v ++ render_fields text false o)))
          (b'}' ∷ []),
      length-append (quoted k) (b':' ∷ (render text v ++ render_fields text false o)),
      length-append (render text v) (render_fields text false o),
    )

    items-length : (a : Items F) → size_items a ≤ 2 * length (render_items text false a)
    items-length no_items = omega arith
    items-length (item v a) = omega (
      arith,
      size-length v,
      items-length a,
      length-append (render text v) (render_items text false a),
    )

    fields-length : (o : Fields F) → size_fields o ≤ 2 * length (render_fields text false o)
    fields-length no_fields = omega arith
    fields-length (field k v o) = omega (
      arith,
      size-length v,
      fields-length o,
      length-append (quoted k) (b':' ∷ (render text v ++ render_fields text false o)),
      length-append (render text v) (render_fields text false o),
    )
