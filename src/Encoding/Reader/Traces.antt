-- ===== src/Encoding/Reader/Traces.antt =====
-- Spans.
use asyncio_otlp_client.Base.{List, text}
use asyncio_otlp_client.Encoding.Json.Tree.{Json}
use asyncio_otlp_client.Encoding.Proto.Messages.{
  EventMessage, LinkMessage, StatusMessage, SpanMessage, ResourceItems,
}
use asyncio_otlp_client.Encoding.Reader.Fields.{
  get, read_text, read_u64, read_nat, read_hex, read_optional, read_list,
}
use asyncio_otlp_client.Encoding.Reader.Common.{Base64, read_attributes, read_resource_items}

unfoldable pub read_status : {F : Type 0} → Json F → StatusMessage
unfolding get
read_status doc = record {
  code = read_nat (get (text "code") doc);
  message = read_text (get (text "message") doc);
}

module _ {F : Type 0} (B : Base64) where
  unfoldable pub read_event : Json F → EventMessage F
  unfolding get
  read_event doc = record {
    time_unix_nano = read_u64 (get (text "timeUnixNano") doc);
    name = read_text (get (text "name") doc);
    attributes = read_attributes B (get (text "attributes") doc);
  }

  unfoldable pub read_link : Json F → LinkMessage F
  unfolding get
  read_link doc = record {
    trace_id = read_hex (get (text "traceId") doc);
    span_id = read_hex (get (text "spanId") doc);
    trace_state = read_text (get (text "traceState") doc);
    attributes = read_attributes B (get (text "attributes") doc);
    flags = read_nat (get (text "flags") doc);
  }

  unfoldable pub read_span : Json F → SpanMessage F
  unfolding get read_event read_link read_status
  read_span doc = record {
    trace_id = read_hex (get (text "traceId") doc);
    span_id = read_hex (get (text "spanId") doc);
    parent_span_id = read_hex (get (text "parentSpanId") doc);
    name = read_text (get (text "name") doc);
    kind = read_nat (get (text "kind") doc);
    start_time_unix_nano = read_u64 (get (text "startTimeUnixNano") doc);
    end_time_unix_nano = read_u64 (get (text "endTimeUnixNano") doc);
    trace_state = read_text (get (text "traceState") doc);
    flags = read_nat (get (text "flags") doc);
    attributes = read_attributes B (get (text "attributes") doc);
    events = read_list read_event (get (text "events") doc);
    links = read_list read_link (get (text "links") doc);
    status = read_optional read_status (get (text "status") doc);
  }

  unfoldable pub read_traces_request : Json F → List (ResourceItems F (SpanMessage F))
  unfolding read_span read_resource_items get read_list
  read_traces_request doc =
      read_list (read_resource_items B (text "scopeSpans") (text "spans") read_span)
        (get (text "resourceSpans") doc)
