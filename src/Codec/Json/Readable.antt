-- ===== src/Codec/Json/Readable.antt =====
-- The values whose JSON text reads back as they are.
use ferroly.Base.{ℕ, ◌+◌, ◌-◌, ◌^◌, ◌≤◌, ◌<◌}
use ferroly.Codec.Value.{
  Value, Items, Fields, null, bool, int, uint, float, str, bytes, array, object, no_items, item,
  no_fields, field,
}
use ferroly.Codec.Fmt.{FloatText}
use ferroly.Codec.Json.Parse.Numbers.{Fits}
use ferroly.Codec.Json.Parse.Floats.{DisplaysBack}

module _ {F : Type 0} (text : FloatText F) where
  -- Within `room` more levels of nesting: integers of the width that the source uses for them, floats
  -- that the standard library prints and reads back, and no byte strings, which are written as arrays.
  unfoldable mutual
    pub IsReadable : ℕ → Value F → Type 0
    IsReadable room null = Unit
    IsReadable room (bool b) = Unit
    IsReadable room (int i) = Fits i
    IsReadable room (uint u) = (2 ^ 63 ≤ u) × (u < 2 ^ 64)
    IsReadable room (float f) = DisplaysBack text f
    IsReadable room (str s) = Unit
    IsReadable room (bytes b) = ⊥
    IsReadable room (array a) = (0 < room) × AreItems (room - 1) a
    IsReadable room (object o) = (0 < room) × AreFields (room - 1) o

    pub AreItems : ℕ → Items F → Type 0
    AreItems room no_items = Unit
    AreItems room (item v a) = IsReadable room v × AreItems room a

    pub AreFields : ℕ → Fields F → Type 0
    AreFields room no_fields = Unit
    AreFields room (field k v o) = IsReadable room v × AreFields room o

-- The calls that reading the text of a value takes.
unfoldable mutual
  pub size : {F : Type 0} → Value F → ℕ
  size null = 1
  size (bool b) = 1
  size (int i) = 1
  size (uint u) = 1
  size (float f) = 1
  size (str s) = 1
  size (bytes b) = 1
  size (array a) = 1 + size_items a
  size (object o) = 1 + size_fields o

  pub size_items : {F : Type 0} → Items F → ℕ
  size_items no_items = 0
  size_items (item v a) = 1 + (size v + size_items a)

  pub size_fields : {F : Type 0} → Fields F → ℕ
  size_fields no_fields = 0
  size_fields (field k v o) = 1 + (size v + size_fields o)
