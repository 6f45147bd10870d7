-- ===== src/Encoding/Agree/Common.antt =====
-- The reader of attribute values, resources and scopes, applied to what the JSON encoder writes.
use asyncio_otlp_client.Base.{◌≡◌, refl, ap, not, some, [], or_default, text, str_eq, arith}
use asyncio_otlp_client.Base.Decimal.{read_int_text-str_of_int}
use asyncio_otlp_client.Model.Common.{
  AnyValue, str_value, bool_value, int_value, float_value, bytes_value, seq_value, map_value,
  Values, nil, cons, Attributes, end, attr, Resource, InstrumentationScope,
}
use asyncio_otlp_client.Encoding.Json.Tree.{dict, members, kept, omit_empty}
use asyncio_otlp_client.Encoding.Json.Common.{
  encode_any_value, encode_values, encode_pairs, encode_attributes, resource_fields,
  encode_resource, scope_fields, encode_scope,
}
use asyncio_otlp_client.Encoding.Proto.Messages.{
  int_arg, bytes_arg, array_arg, kvlist_arg, value_message, key_value,
}
use asyncio_otlp_client.Encoding.Proto.Common.{
  any_value, any_values, key_values, no_attributes, resource_is_empty, resource_message,
  scope_is_empty, scope_message,
}
use asyncio_otlp_client.Encoding.Reader.Fields.{read_text, read_int, read_optional}
use asyncio_otlp_client.Encoding.Reader.Common.{
  Base64, read_any, read_values, read_pairs, read_attributes, read_resource, read_scope,
}
use asyncio_otlp_client.Encoding.Agree.Fields.{
  value_of, has_key, distinct, seen, read-at, read_text-seen, read_text-seen_optional,
  read_int-seen,
}
use asyncio_otlp_client.Encoding.Agree.Kept.{
  nothing_kept, read_object-seen, kept-string, kept-optional_string, kept-nonzero_int,
}

module _ {F : Type 0} (B : Base64) where
  mutual
    unfolding text str_eq dict members read_any read_values read_pairs encode_any_value
        encode_values encode_pairs any_value any_values key_values

    -- An attribute value is read as the protobuf encoder writes it.
    pub read_any-encode_any_value :
        (v : AnyValue F) → read_any B (encode_any_value B.encode v) ≡ any_value v
    read_any-encode_any_value (bool_value b) = refl
    read_any-encode_any_value (int_value n) = ap int_arg (read_int_text-str_of_int n)
    read_any-encode_any_value (float_value x) = refl
    read_any-encode_any_value (str_value s) = refl
    read_any-encode_any_value (bytes_value b) = ap bytes_arg (B.decode-encode b)
    read_any-encode_any_value (seq_value vs) = ap array_arg (read_values-encode_values vs)
    read_any-encode_any_value (map_value m) = ap kvlist_arg (read_pairs-encode_pairs m)

    read_values-encode_values :
        (vs : Values F) → read_values B (encode_values B.encode vs) ≡ any_values vs
    read_values-encode_values nil = refl
    read_values-encode_values (cons v vs) =
        λ i. value_message (read_any-encode_any_value v i) (read_values-encode_values vs i)

    read_pairs-encode_pairs :
        (m : Attributes F) → read_pairs B (encode_pairs B.encode m) ≡ key_values m
    read_pairs-encode_pairs end = refl
    read_pairs-encode_pairs (attr k v m) =
        λ i. key_value k (read_any-encode_any_value v i) (read_pairs-encode_pairs m i)

  pub read_attributes-seen :
      (m : Attributes F) → read_attributes B (seen (encode_attributes B.encode m)) ≡ key_values m
  unfolding read_attributes encode_attributes encode_pairs seen kept key_values
  read_attributes-seen end = refl
  read_attributes-seen (attr k v m) = read_pairs-encode_pairs (attr k v m)

  pub read_body-seen :
      (v : AnyValue F)
      → read_optional (read_any B) (seen (encode_any_value B.encode v)) ≡ some (any_value v)
  unfolding read_optional encode_any_value dict members seen kept
  read_body-seen (bool_value b) = ap some (read_any-encode_any_value (bool_value b))
  read_body-seen (int_value n) = ap some (read_any-encode_any_value (int_value n))
  read_body-seen (float_value x) = ap some (read_any-encode_any_value (float_value x))
  read_body-seen (str_value s) = ap some (read_any-encode_any_value (str_value s))
  read_body-seen (bytes_value b) = ap some (read_any-encode_any_value (bytes_value b))
  read_body-seen (seq_value vs) = ap some (read_any-encode_any_value (seq_value vs))
  read_body-seen (map_value m) = ap some (read_any-encode_any_value (map_value m))

  kept-attributes : (m : Attributes F) → kept (encode_attributes B.encode m) ≡ not (no_attributes m)
  unfolding kept encode_attributes encode_pairs
  kept-attributes end = refl
  kept-attributes (attr k v m) = refl

  resource_is_empty-nothing_kept :
      (r : Resource F) → nothing_kept (resource_fields B.encode r) ≡ resource_is_empty r
  unfolding nothing_kept resource_fields resource_is_empty
  resource_is_empty-nothing_kept r =
      ground (arith, kept-attributes r.attributes, kept-nonzero_int F r.dropped_attributes_count)

  read_resource-encode_resource :
      (r : Resource F)
      → read_resource B (omit_empty (resource_fields B.encode r)) ≡ record {
        attributes = key_values r.attributes;
        dropped_attributes_count = r.dropped_attributes_count;
      }
  unfolding text str_eq value_of has_key distinct read_resource resource_fields
  read_resource-encode_resource r =
      let fs = resource_fields B.encode r in
      λ i. record {
        attributes =
            read-at (read_attributes B) (text "attributes") fs refl
              (read_attributes-seen r.attributes) i;
        dropped_attributes_count =
            read-at read_int (text "droppedAttributesCount") fs refl
              (read_int-seen F r.dropped_attributes_count) i;
      }

  -- A resource is set in both encodings, or in neither.
  pub read_resource-seen :
      (r : Resource F)
      → read_optional (read_resource B) (seen (encode_resource B.encode r)) ≡ resource_message r
  unfolding encode_resource resource_message
  read_resource-seen r =
      read_object-seen (read_resource B) (resource_fields B.encode r)
        (resource_is_empty-nothing_kept r) (read_resource-encode_resource r)

  scope_is_empty-nothing_kept :
      (s : InstrumentationScope F) → nothing_kept (scope_fields B.encode s) ≡ scope_is_empty s
  unfolding nothing_kept scope_fields scope_is_empty
  scope_is_empty-nothing_kept s =
      ground (
        arith,
        kept-string F s.name,
        kept-optional_string F s.version,
        kept-attributes s.attributes,
      )

  read_scope-encode_scope :
      (s : InstrumentationScope F)
      → read_scope B (omit_empty (scope_fields B.encode s)) ≡ record {
        name = s.name;
        version = or_default [] s.version;
        attributes = key_values s.attributes;
      }
  unfolding text str_eq value_of has_key distinct read_scope scope_fields
  read_scope-encode_scope s =
      let fs = scope_fields B.encode s in
      λ i. record {
        name = read-at read_text (text "name") fs refl (read_text-seen F s.name) i;
        version =
            read-at read_text (text "version") fs refl (read_text-seen_optional F s.version) i;
        attributes =
            read-at (read_attributes B) (text "attributes") fs refl
              (read_attributes-seen s.attributes) i;
      }

  pub read_scope-seen :
      (s : InstrumentationScope F)
      → read_optional (read_scope B) (seen (encode_scope B.encode s)) ≡ scope_message s
  unfolding encode_scope scope_message
  read_scope-seen s =
      read_object-seen (read_scope B) (scope_fields B.encode s) (scope_is_empty-nothing_kept s)
        (read_scope-encode_scope s)
