-- ===== src/Encoding/Agree/Envelope.antt =====
-- The reader of the objects that a scope and a resource put around their items.
use asyncio_otlp_client.Base.{◌≡◌, refl, ap, ◌∙◌, true, List, [], ◌∷◌, map, Str, text}
use asyncio_otlp_client.Model.Common.{Resource, InstrumentationScope}
use asyncio_otlp_client.Encoding.Json.Tree.{Json, Fields, list, omit_empty}
use asyncio_otlp_client.Encoding.Json.Common.{encode_resource, encode_scope}
use asyncio_otlp_client.Encoding.Proto.Messages.{ScopeItems}
use asyncio_otlp_client.Encoding.Proto.Common.{resource_message, scope_message}
use asyncio_otlp_client.Encoding.Reader.Fields.{read_optional, read_list}
use asyncio_otlp_client.Encoding.Reader.Common.{
  Base64, read_resource, read_scope, read_scope_items, read_resource_items,
}
use asyncio_otlp_client.Encoding.Agree.Fields.{
  value_of, distinct, seen, read-at, read_list-seen_made,
}
use asyncio_otlp_client.Encoding.Agree.Common.{read_resource-seen, read_scope-seen}

-- What is read of each of the items that are written.
pub map-written :
    {A J M : Type 0} (read : J → M) (write : A → J) (message : A → M)
    → ((x : A) → read (write x) ≡ message x)
    → (xs : List A) → map read (map write xs) ≡ map message xs
map-written read write message h [] = refl
map-written read write message h (x ∷ xs) = λ i. h x i ∷ map-written read write message h xs i

-- `key` is the field of the items.
module _ {F : Type 0} (B : Base64) (key : Str) {M : Type 0} (read : Json F → M) where
  pub read_scope_items-omit_empty :
      (s : InstrumentationScope F) (docs : List (Json F)) {ms : List M} (fs : Fields F)
      → distinct fs ≡ true
      → value_of (text "scope") fs ≡ encode_scope B.encode s
      → value_of key fs ≡ list docs
      → map read docs ≡ ms
      → read_scope_items B key read (omit_empty fs)
        ≡ record { scope = scope_message s; entries = ms }
  unfolding read_scope_items
  read_scope_items-omit_empty s docs fs d e f h = λ i. record {
    scope =
        read-at (read_optional (read_scope B)) (text "scope") fs d
          (ap (λ v. read_optional (read_scope B) (seen v)) e ∙ read_scope-seen B s) i;
    entries =
        read-at (read_list read) key fs d
          (ap (λ v. read_list read (seen v)) f ∙ read_list-seen_made read docs ∙ h) i;
  }

  pub read_resource_items-omit_empty :
      (scopes_key : Str) (r : Resource F) (docs : List (Json F)) {ms : List (ScopeItems F M)}
      (fs : Fields F)
      → distinct fs ≡ true
      → value_of (text "resource") fs ≡ encode_resource B.encode r
      → value_of scopes_key fs ≡ list docs
      → map (read_scope_items B key read) docs ≡ ms
      → read_resource_items B scopes_key key read (omit_empty fs)
        ≡ record { resource = resource_message r; scopes = ms }
  unfolding read_resource_items
  read_resource_items-omit_empty scopes_key r docs fs d e f h = λ i. record {
    resource =
        read-at (read_optional (read_resource B)) (text "resource") fs d
          (ap (λ v. read_optional (read_resource B) (seen v)) e ∙ read_resource-seen B r) i;
    scopes =
        read-at (read_list (read_scope_items B key read)) scopes_key fs d
          (ap (λ v. read_list (read_scope_items B key read) (seen v)) f
            ∙ read_list-seen_made (read_scope_items B key read) docs
            ∙ h)
          i;
  }
