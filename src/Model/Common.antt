-- ===== src/Model/Common.antt =====
-- src/otlp_client/model/common.py. `F` is the type of floats; bytes are numbers below 256.
use asyncio_otlp_client.Base.{ℕ, Bool, Option, List, Str}
use asyncio_otlp_client.Base.Int.{ℤ, pos}

abbrev pub Bytes : Type 0
Bytes = List ℕ

-- The Python values that an attribute may have; `Attributes` is `Mapping[str, AnyValue]`.
mutual
  pub data AnyValue (F : Type 0) : Type 0 where
    str_value : Str → AnyValue F
    bool_value : Bool → AnyValue F
    int_value : ℤ → AnyValue F
    float_value : F → AnyValue F
    bytes_value : Bytes → AnyValue F
    seq_value : Values F → AnyValue F
    map_value : Attributes F → AnyValue F

  pub data Values (F : Type 0) : Type 0 where
    nil : Values F
    cons : AnyValue F → Values F → Values F

  pub data Attributes (F : Type 0) : Type 0 where
    end : Attributes F
    attr : Str → AnyValue F → Attributes F → Attributes F

pub record Resource (F : Type 0) : Type 0 where
  pub attributes : Attributes F
  pub dropped_attributes_count : ℤ

pub record InstrumentationScope (F : Type 0) : Type 0 where
  pub name : Str
  pub version : Option Str
  pub attributes : Attributes F

-- `Resource()`
abbrev pub empty_resource : {F : Type 0} → Resource F
empty_resource = record { attributes = end; dropped_attributes_count = pos 0 }
