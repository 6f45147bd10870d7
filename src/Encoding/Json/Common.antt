-- ===== src/Encoding/Json/Common.antt =====
-- `hex_id`, `encode_any_value` and `encode_attributes` of src/otlp_client/encoding/primitives.py, and
-- the resource and the scope of json.py. `b64` is base64, a function of the standard library.
use asyncio_otlp_client.Base.{
  ℕ, ◌+◌, ◌-◌, ◌/◌, ◌%◌, Option, none, some, [], ◌∷◌, ltb, Str, text, is_empty, if◌then◌else◌,
}
use asyncio_otlp_client.Base.Int.{ℤ, str_of_int}
use asyncio_otlp_client.Model.Common.{
  AnyValue, str_value, bool_value, int_value, float_value, bytes_value, seq_value, map_value,
  Values, nil, cons, Attributes, end, attr, Bytes, Resource, InstrumentationScope,
}
use asyncio_otlp_client.Encoding.Json.Tree.{
  Json, null, boolean, number, string, array, Items, no_items, item, Fields, dict, omit_empty,
  nonzero_int,
}

-- one hexadecimal digit
unfoldable pub hex_digit : ℕ → ℕ
hex_digit d = if ltb d 10 then d + b'0' else d - 10 + b'a'

-- `value.hex()`
unfoldable pub hex_id : Bytes → Str
unfolding hex_digit
hex_id [] = []
hex_id (b ∷ bs) = hex_digit (b / 16) ∷ hex_digit (b % 16) ∷ hex_id bs

module _ {F : Type 0} where
  -- `u64(value)`
  abbrev pub u64 : ℤ → Json F
  u64 n = string (str_of_int n)

  -- `u64(x) if x is not None else None`
  unfoldable pub optional_u64 : Option ℤ → Json F
  optional_u64 none = null
  optional_u64 (some n) = u64 n

  -- `hex_id(x) if x else None`
  unfoldable pub optional_hex : Option Bytes → Json F
  unfolding hex_id
  optional_hex none = null
  optional_hex (some bs) = if is_empty bs then null else string (hex_id bs)

  unfoldable pub optional_string : Option Str → Json F
  optional_string none = null
  optional_string (some s) = string s

  unfoldable pub optional_number : Option F → Json F
  optional_number none = null
  optional_number (some x) = number x

module _ {F : Type 0} (b64 : Bytes → Str) where
  unfoldable mutual
    unfolding dict

    -- `encode_any_value`
    pub encode_any_value : AnyValue F → Json F
    encode_any_value (bool_value b) = dict ((text "boolValue", boolean b) ∷ [])
    encode_any_value (int_value n) = dict ((text "intValue", u64 n) ∷ [])
    encode_any_value (float_value x) = dict ((text "doubleValue", number x) ∷ [])
    encode_any_value (str_value s) = dict ((text "stringValue", string s) ∷ [])
    encode_any_value (bytes_value b) = dict ((text "bytesValue", string (b64 b)) ∷ [])
    encode_any_value (map_value m) =
        dict ((text "kvlistValue", dict ((text "values", array (encode_pairs m)) ∷ [])) ∷ [])
    encode_any_value (seq_value vs) =
        dict ((text "arrayValue", dict ((text "values", array (encode_values vs)) ∷ [])) ∷ [])

    pub encode_values : Values F → Items F
    encode_values nil = no_items
    encode_values (cons v vs) = item (encode_any_value v) (encode_values vs)

    pub encode_pairs : Attributes F → Items F
    encode_pairs end = no_items
    encode_pairs (attr k v m) =
        item (dict ((text "key", string k) ∷ (text "value", encode_any_value v) ∷ []))
          (encode_pairs m)

  unfoldable pub encode_attributes : Attributes F → Json F
  unfolding encode_pairs
  encode_attributes m = array (encode_pairs m)

  unfoldable pub resource_fields : Resource F → Fields F
  resource_fields resource =
      (text "attributes", encode_attributes resource.attributes)
      ∷ (text "droppedAttributesCount", nonzero_int resource.dropped_attributes_count)
      ∷ []

  -- `_encode_resource`
  unfoldable pub encode_resource : Resource F → Json F
  unfolding resource_fields omit_empty
  encode_resource resource = omit_empty (resource_fields resource)

  unfoldable pub scope_fields : InstrumentationScope F → Fields F
  scope_fields scope =
      (text "name", string scope.name)
      ∷ (text "version", optional_string scope.version)
      ∷ (text "attributes", encode_attributes scope.attributes)
      ∷ []

  -- `_encode_scope`
  unfoldable pub encode_scope : InstrumentationScope F → Json F
  unfolding scope_fields omit_empty
  encode_scope scope = omit_empty (scope_fields scope)
