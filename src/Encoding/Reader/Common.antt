-- ===== src/Encoding/Reader/Common.antt =====
-- Attribute values, resources and scopes.
use asyncio_otlp_client.Base.{◌≡◌, [], Str, text, str_eq, ◌&&◌, if◌then◌else◌}
use asyncio_otlp_client.Base.Decimal.{read_int_text}
use asyncio_otlp_client.Model.Common.{Bytes}
use asyncio_otlp_client.Encoding.Json.Tree.{
  Json, boolean, number, string, array, object, Items, no_items, item, member,
}
use asyncio_otlp_client.Encoding.Proto.Messages.{
  AnyMessage, string_arg, bool_arg, int_arg, double_arg, bytes_arg, array_arg, kvlist_arg,
  ValueMessages, no_values, value_message, KeyValues, no_key_values, key_value, ResourceMessage,
  ScopeMessage, ScopeItems, ResourceItems,
}
use asyncio_otlp_client.Encoding.Reader.Fields.{get, read_text, read_int, read_optional, read_list}

-- base64 of the standard library: decoding gives back what was encoded
pub record Base64 : Type 0 where
  pub encode : Bytes → Str
  pub decode : Str → Bytes
  pub decode-encode : (b : Bytes) → decode (encode b) ≡ b

abbrev pub empty_text : {F : Type 0} → AnyMessage F
empty_text = string_arg []

module _ {F : Type 0} (B : Base64) where
  unfoldable mutual
    unfolding str_eq

    pub read_any : Json F → AnyMessage F
    read_any (object (member k (boolean b) ms)) =
        if str_eq k (text "boolValue") then bool_arg b else empty_text
    read_any (object (member k (number x) ms)) =
        if str_eq k (text "doubleValue") then double_arg x else empty_text
    read_any (object (member k (string s) ms)) =
        if str_eq k (text "stringValue")
        then string_arg s
        else if str_eq k (text "intValue")
        then int_arg (read_int_text s)
        else if str_eq k (text "bytesValue")
        then bytes_arg (B.decode s)
        else empty_text
    read_any (object (member k (object (member j (array vs) ns)) ms)) =
        let pairs = kvlist_arg (read_pairs vs) in
        let values = array_arg (read_values vs) in
        if str_eq j (text "values") && str_eq k (text "kvlistValue")
        then pairs
        else if str_eq j (text "values") && str_eq k (text "arrayValue")
        then values
        else empty_text
    read_any _ = empty_text

    pub read_values : Items F → ValueMessages F
    read_values no_items = no_values
    read_values (item v vs) = value_message (read_any v) (read_values vs)

    pub read_pairs : Items F → KeyValues F
    read_pairs no_items = no_key_values
    read_pairs (item (object (member k (string s) (member j v ms))) vs) =
        let rest = read_pairs vs in
        let pair = key_value s (read_any v) (read_pairs vs) in
        if str_eq k (text "key") && str_eq j (text "value") then pair else rest
    read_pairs (item _ vs) = read_pairs vs

  unfoldable pub read_attributes : Json F → KeyValues F
  unfolding read_pairs
  read_attributes (array vs) = read_pairs vs
  read_attributes _ = no_key_values

  unfoldable pub read_resource : Json F → ResourceMessage F
  unfolding get read_attributes read_int
  read_resource doc = record {
    attributes = read_attributes (get (text "attributes") doc);
    dropped_attributes_count = read_int (get (text "droppedAttributesCount") doc);
  }

  unfoldable pub read_scope : Json F → ScopeMessage F
  unfolding get read_attributes read_text
  read_scope doc = record {
    name = read_text (get (text "name") doc);
    version = read_text (get (text "version") doc);
    attributes = read_attributes (get (text "attributes") doc);
  }

  -- the object around the items of a scope, under the key of the signal
  unfoldable pub read_scope_items : {M : Type 0} → Str → (Json F → M) → Json F → ScopeItems F M
  unfolding read_scope read_optional read_list
  read_scope_items key read_entry doc = record {
    scope = read_optional read_scope (get (text "scope") doc);
    entries = read_list read_entry (get key doc);
  }

  unfoldable pub read_resource_items :
      {M : Type 0} → Str → Str → (Json F → M) → Json F → ResourceItems F M
  unfolding read_resource read_scope_items
  read_resource_items scopes_key key read_entry doc = record {
    resource = read_optional read_resource (get (text "resource") doc);
    scopes = read_list (read_scope_items key read_entry) (get scopes_key doc);
  }
