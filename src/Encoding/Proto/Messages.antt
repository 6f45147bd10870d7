-- ===== src/Encoding/Proto/Messages.antt =====
-- The messages of opentelemetry-proto, each as the keyword arguments that the package gives its
-- generated class. A field of a message type is an `Option`, with `none` where it is not set; so is an
-- `optional` scalar. The others have the default of their type where they are not set.
use asyncio_otlp_client.Base.{ℕ, Bool, Option, List, Str}
use asyncio_otlp_client.Base.Int.{ℤ}
use asyncio_otlp_client.Model.Common.{Bytes}

-- `AnyValue`, `ArrayValue` and `KeyValueList`
mutual
  pub data AnyMessage (F : Type 0) : Type 0 where
    string_arg : Str → AnyMessage F
    bool_arg : Bool → AnyMessage F
    int_arg : ℤ → AnyMessage F
    double_arg : F → AnyMessage F
    bytes_arg : Bytes → AnyMessage F
    array_arg : ValueMessages F → AnyMessage F
    kvlist_arg : KeyValues F → AnyMessage F

  pub data ValueMessages (F : Type 0) : Type 0 where
    no_values : ValueMessages F
    value_message : AnyMessage F → ValueMessages F → ValueMessages F

  pub data KeyValues (F : Type 0) : Type 0 where
    no_key_values : KeyValues F
    key_value : Str → AnyMessage F → KeyValues F → KeyValues F

pub record ResourceMessage (F : Type 0) : Type 0 where
  pub attributes : KeyValues F
  pub dropped_attributes_count : ℤ

pub record ScopeMessage (F : Type 0) : Type 0 where
  pub name : Str
  pub version : Str
  pub attributes : KeyValues F

pub record LogMessage (F : Type 0) : Type 0 where
  pub time_unix_nano : ℤ
  pub observed_time_unix_nano : ℤ
  pub severity_number : ℕ
  pub severity_text : Str
  pub body : Option (AnyMessage F)
  pub attributes : KeyValues F
  pub trace_id : Bytes
  pub span_id : Bytes
  pub event_name : Str
  pub flags : ℕ

pub record EventMessage (F : Type 0) : Type 0 where
  pub time_unix_nano : ℤ
  pub name : Str
  pub attributes : KeyValues F

pub record LinkMessage (F : Type 0) : Type 0 where
  pub trace_id : Bytes
  pub span_id : Bytes
  pub trace_state : Str
  pub attributes : KeyValues F
  pub flags : ℕ

pub record StatusMessage : Type 0 where
  pub code : ℕ
  pub message : Str

pub record SpanMessage (F : Type 0) : Type 0 where
  pub trace_id : Bytes
  pub span_id : Bytes
  pub parent_span_id : Bytes
  pub name : Str
  pub kind : ℕ
  pub start_time_unix_nano : ℤ
  pub end_time_unix_nano : ℤ
  pub trace_state : Str
  pub flags : ℕ
  pub attributes : KeyValues F
  pub events : List (EventMessage F)
  pub links : List (LinkMessage F)
  pub status : Option StatusMessage

-- `ScopeLogs`, `ScopeSpans` and `ScopeMetrics` of items of the type `M`, and the envelopes around them
pub record ScopeItems (F M : Type 0) : Type 0 where
  pub scope : Option (ScopeMessage F)
  pub entries : List M

pub record ResourceItems (F M : Type 0) : Type 0 where
  pub resource : Option (ResourceMessage F)
  pub scopes : List (ScopeItems F M)
