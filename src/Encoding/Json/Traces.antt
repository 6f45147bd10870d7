-- ===== src/Encoding/Json/Traces.antt =====
-- The spans of src/otlp_client/encoding/json.py.
use asyncio_otlp_client.Base.{Option, none, some, List, [], ◌∷◌, Str, text}
use asyncio_otlp_client.Model.Common.{Bytes}
use asyncio_otlp_client.Model.Traces.{
  Span, SpanEvent, SpanLink, Status, ScopeSpans, ResourceSpans, span_kind_int, status_int,
}
use asyncio_otlp_client.Encoding.Json.Tree.{
  Json, null, string, Fields, dict, omit_empty, each, nonzero,
}
use asyncio_otlp_client.Encoding.Json.Common.{
  u64, hex_id, optional_hex, encode_attributes, encode_resource, encode_scope,
}

unfoldable pub status_fields : {F : Type 0} → Status → Fields F
status_fields s =
    (text "code", nonzero (status_int s.code)) ∷ (text "message", string s.message) ∷ []

-- the value `status` of `_encode_span`
unfoldable pub encode_status : {F : Type 0} → Option Status → Json F
unfolding status_fields omit_empty
encode_status none = null
encode_status (some s) = omit_empty (status_fields s)

module _ {F : Type 0} (b64 : Bytes → Str) where
  unfoldable pub event_fields : SpanEvent F → Fields F
  event_fields e =
      (text "timeUnixNano", u64 e.time_unix_nano)
      ∷ (text "name", string e.name)
      ∷ (text "attributes", encode_attributes b64 e.attributes)
      ∷ []

  -- `_encode_span_event`
  unfoldable pub encode_span_event : SpanEvent F → Json F
  unfolding event_fields omit_empty
  encode_span_event e = omit_empty (event_fields e)

  unfoldable pub link_fields : SpanLink F → Fields F
  link_fields l =
      (text "traceId", string (hex_id l.trace_id))
      ∷ (text "spanId", string (hex_id l.span_id))
      ∷ (text "traceState", string l.trace_state)
      ∷ (text "flags", nonzero l.flags)
      ∷ (text "attributes", encode_attributes b64 l.attributes)
      ∷ []

  -- `_encode_span_link`
  unfoldable pub encode_span_link : SpanLink F → Json F
  unfolding link_fields omit_empty
  encode_span_link l = omit_empty (link_fields l)

  unfoldable pub span_fields : Span F → Fields F
  unfolding encode_status
  span_fields s =
      (text "traceId", string (hex_id s.trace_id))
      ∷ (text "spanId", string (hex_id s.span_id))
      ∷ (text "parentSpanId", optional_hex s.parent_span_id)
      ∷ (text "name", string s.name)
      ∷ (text "kind", nonzero (span_kind_int s.kind))
      ∷ (text "startTimeUnixNano", u64 s.start_time_unix_nano)
      ∷ (text "endTimeUnixNano", u64 s.end_time_unix_nano)
      ∷ (text "traceState", string s.trace_state)
      ∷ (text "flags", nonzero s.flags)
      ∷ (text "attributes", encode_attributes b64 s.attributes)
      ∷ (text "events", each encode_span_event s.events)
      ∷ (text "links", each encode_span_link s.links)
      ∷ (text "status", encode_status s.status)
      ∷ []

  -- `_encode_span`
  unfoldable pub encode_span : Span F → Json F
  unfolding span_fields omit_empty
  encode_span s = omit_empty (span_fields s)

  unfoldable pub scope_spans_fields : ScopeSpans F → Fields F
  scope_spans_fields ss =
      (text "scope", encode_scope b64 ss.scope) ∷ (text "spans", each encode_span ss.spans) ∷ []

  unfoldable pub resource_spans_fields : ResourceSpans F → Fields F
  unfolding scope_spans_fields omit_empty
  resource_spans_fields rs =
      (text "resource", encode_resource b64 rs.resource)
      ∷ (text "scopeSpans", each (λ ss. omit_empty (scope_spans_fields ss)) rs.scope_spans)
      ∷ []

  -- `_encode_resource_spans`
  unfoldable pub encode_resource_spans : List (ResourceSpans F) → Json F
  unfolding resource_spans_fields dict
  encode_resource_spans rss =
      dict ((text "resourceSpans", each (λ rs. omit_empty (resource_spans_fields rs)) rss) ∷ [])
