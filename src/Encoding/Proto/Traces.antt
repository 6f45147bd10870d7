-- ===== src/Encoding/Proto/Traces.antt =====
-- `_span` and `_encode_traces` of protobuf.py, up to the call of `SerializeToString`.
use asyncio_otlp_client.Base.{
  ◌&&◌, Option, none, some, List, [], map, or_default, is_empty, if◌then◌else◌,
}
use asyncio_otlp_client.Model.Builders.{is_unset}
use asyncio_otlp_client.Model.Traces.{
  Span, SpanEvent, SpanLink, Status, ScopeSpans, ResourceSpans, span_kind_int, status_int,
}
use asyncio_otlp_client.Encoding.Proto.Messages.{
  EventMessage, LinkMessage, StatusMessage, SpanMessage, ScopeItems, ResourceItems,
}
use asyncio_otlp_client.Encoding.Proto.Common.{key_values, resource_message, scope_message}

-- the argument `status`, which is only given if it carries information
unfoldable pub status_message : Option Status → Option StatusMessage
status_message none = none
status_message (some s) =
    if is_unset s.code && is_empty s.message
    then none
    else some (record { code = status_int s.code; message = s.message })

module _ {F : Type 0} where
  unfoldable pub event_message : SpanEvent F → EventMessage F
  event_message e = record {
    time_unix_nano = e.time_unix_nano;
    name = e.name;
    attributes = key_values e.attributes;
  }

  unfoldable pub link_message : SpanLink F → LinkMessage F
  link_message l = record {
    trace_id = l.trace_id;
    span_id = l.span_id;
    trace_state = l.trace_state;
    attributes = key_values l.attributes;
    flags = l.flags;
  }

  -- `_span`
  unfoldable pub span_message : Span F → SpanMessage F
  unfolding event_message link_message status_message
  span_message s = record {
    trace_id = s.trace_id;
    span_id = s.span_id;
    parent_span_id = or_default [] s.parent_span_id;
    name = s.name;
    kind = span_kind_int s.kind;
    start_time_unix_nano = s.start_time_unix_nano;
    end_time_unix_nano = s.end_time_unix_nano;
    trace_state = s.trace_state;
    flags = s.flags;
    attributes = key_values s.attributes;
    events = map event_message s.events;
    links = map link_message s.links;
    status = status_message s.status;
  }

  unfoldable pub scope_spans_message : ScopeSpans F → ScopeItems F (SpanMessage F)
  unfolding span_message
  scope_spans_message ss = record {
    scope = scope_message ss.scope;
    entries = map span_message ss.spans;
  }

  unfoldable pub resource_spans_message : ResourceSpans F → ResourceItems F (SpanMessage F)
  unfolding scope_spans_message
  resource_spans_message rs = record {
    resource = resource_message rs.resource;
    scopes = map scope_spans_message rs.scope_spans;
  }

  -- the request of `_encode_traces`
  unfoldable pub traces_request : List (ResourceSpans F) → List (ResourceItems F (SpanMessage F))
  unfolding resource_spans_message
  traces_request rss = map resource_spans_message rss
