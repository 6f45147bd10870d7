-- ===== src/Encoding/Proto/Common.antt =====
-- `_any_value`, `_key_values`, and the resource and the scope of protobuf.py.
use asyncio_otlp_client.Base.{
  Bool, true, false, ◌&&◌, Option, none, some, [], Str, is_empty, if◌then◌else◌, or_default,
}
use asyncio_otlp_client.Base.Int as Int
use asyncio_otlp_client.Model.Common.{
  AnyValue, str_value, bool_value, int_value, float_value, bytes_value, seq_value, map_value,
  Values, nil, cons, Attributes, end, attr, Resource, InstrumentationScope,
}
use asyncio_otlp_client.Encoding.Proto.Messages.{
  AnyMessage, string_arg, bool_arg, int_arg, double_arg, bytes_arg, array_arg, kvlist_arg,
  ValueMessages, no_values, value_message, KeyValues, no_key_values, key_value, ResourceMessage,
  ScopeMessage,
}

-- `not version` of an optional text
abbrev pub no_text : Option Str → Bool
no_text none = true
no_text (some s) = is_empty s

module _ {F : Type 0} where
  unfoldable mutual
    -- `_any_value`
    pub any_value : AnyValue F → AnyMessage F
    any_value (bool_value b) = bool_arg b
    any_value (int_value n) = int_arg n
    any_value (float_value x) = double_arg x
    any_value (str_value s) = string_arg s
    any_value (bytes_value b) = bytes_arg b
    any_value (map_value m) = kvlist_arg (key_values m)
    any_value (seq_value vs) = array_arg (any_values vs)

    pub any_values : Values F → ValueMessages F
    any_values nil = no_values
    any_values (cons v vs) = value_message (any_value v) (any_values vs)

    -- `_key_values`
    pub key_values : Attributes F → KeyValues F
    key_values end = no_key_values
    key_values (attr k v m) = key_value k (any_value v) (key_values m)

  -- `not attributes`
  abbrev pub no_attributes : Attributes F → Bool
  no_attributes end = true
  no_attributes (attr k v m) = false

  -- `_resource_is_empty`
  unfoldable pub resource_is_empty : Resource F → Bool
  resource_is_empty r = no_attributes r.attributes && Int.is_zero r.dropped_attributes_count

  -- `None if _resource_is_empty(r) else _resource(r)`
  unfoldable pub resource_message : Resource F → Option (ResourceMessage F)
  unfolding resource_is_empty key_values
  resource_message r =
      if resource_is_empty r
      then none
      else some (record {
        attributes = key_values r.attributes;
        dropped_attributes_count = r.dropped_attributes_count;
      })

  -- `_scope_is_empty`
  unfoldable pub scope_is_empty : InstrumentationScope F → Bool
  scope_is_empty s = is_empty s.name && no_text s.version && no_attributes s.attributes

  -- `None if _scope_is_empty(s) else _scope(s)`
  unfoldable pub scope_message : InstrumentationScope F → Option (ScopeMessage F)
  unfolding scope_is_empty key_values
  scope_message s =
      if scope_is_empty s
      then none
      else some (record {
        name = s.name;
        version = or_default [] s.version;
        attributes = key_values s.attributes;
      })
