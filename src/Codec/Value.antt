-- ===== src/Codec/Value.antt =====
-- `Value` of crates/ferroly/src/codec/value.rs. A string is its UTF-8 bytes, `F` stands for `f64`.
use ferroly.Base.{ℕ, Bool}
use ferroly.Base.Bytes.{Bytes}

-- `i64`; `negsuc n` is `-(n + 1)`.
pub data ℤ : Type 0 where
  pos : ℕ → ℤ
  negsuc : ℕ → ℤ

mutual
  pub data Value (F : Type 0) : Type 0 where
    null : Value F
    bool : Bool → Value F
    int : ℤ → Value F
    uint : ℕ → Value F
    float : F → Value F
    str : Bytes → Value F
    bytes : Bytes → Value F
    array : Items F → Value F
    object : Fields F → Value F

  pub data Items (F : Type 0) : Type 0 where
    no_items : Items F
    item : Value F → Items F → Items F

  pub data Fields (F : Type 0) : Type 0 where
    no_fields : Fields F
    field : Bytes → Value F → Fields F → Fields F
