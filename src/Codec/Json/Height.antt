-- ===== src/Codec/Json/Height.antt =====
-- How deep a value nests.
use ferroly.Base.{ℕ, ◌+◌, max}
use ferroly.Codec.Value.{
  Value, Items, Fields, null, bool, int, uint, float, str, bytes, array, object, no_items, item,
  no_fields, field,
}

unfoldable mutual
  pub height : {F : Type 0} → Value F → ℕ
  height null = 0
  height (bool b) = 0
  height (int i) = 0
  height (uint u) = 0
  height (float f) = 0
  height (str s) = 0
  height (bytes b) = 0
  height (array a) = 1 + height_items a
  height (object o) = 1 + height_fields o

  pub height_items : {F : Type 0} → Items F → ℕ
  height_items no_items = 0
  height_items (item v a) = max (height v) (height_items a)

  pub height_fields : {F : Type 0} → Fields F → ℕ
  height_fields no_fields = 0
  height_fields (field k v o) = max (height v) (height_fields o)
