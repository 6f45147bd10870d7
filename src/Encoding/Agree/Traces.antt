-- ===== src/Encoding/Agree/Traces.antt =====
-- The JSON and the protobuf encoding of spans.
use asyncio_otlp_client.Base.{
  ◌≡◌, refl, ◌&&◌, ◌==◌, Option, none, some, List, map, text, str_eq, is_empty, arith,
}
use asyncio_otlp_client.Model.Builders.{is_unset}
use asyncio_otlp_client.Model.Traces.{
  Span, SpanEvent, SpanLink, Status, StatusCode, unset, ok_status, error_status, ScopeSpans,
  ResourceSpans, span_kind_int, status_int,
}
use asyncio_otlp_client.Encoding.Json.Tree.{omit_empty, dict, members, kept}
use asyncio_otlp_client.Encoding.Json.Traces.{
  status_fields, encode_status, event_fields, encode_span_event, link_fields, encode_span_link,
  span_fields, encode_span, scope_spans_fields, resource_spans_fields, encode_resource_spans,
}
use asyncio_otlp_client.Encoding.Proto.Traces.{
  status_message, event_message, link_message, span_message, scope_spans_message,
  resource_spans_message, traces_request,
}
use asyncio_otlp_client.Encoding.Reader.Fields.{
  get, find, read_text, read_u64, read_nat, read_hex, read_optional, read_list,
}
use asyncio_otlp_client.Encoding.Reader.Common.{
  Base64, read_attributes, read_scope_items, read_resource_items,
}
use asyncio_otlp_client.Encoding.Reader.Traces.{
  read_status, read_event, read_link, read_span, read_traces_request,
}
use asyncio_otlp_client.Encoding.Agree.Fields.{
  value_of, has_key, distinct, seen, read-at, read_text-seen, read_u64-seen, read_nat-seen,
  read_hex-seen, read_hex-seen_optional, read_list-seen, read_each,
}
use asyncio_otlp_client.Encoding.Agree.Kept.{
  nothing_kept, read_object-seen, kept-string, kept-nonzero,
}
use asyncio_otlp_client.Encoding.Agree.Common.{read_attributes-seen}
use asyncio_otlp_client.Encoding.Agree.Envelope.{
  map-written, read_scope_items-omit_empty, read_resource_items-omit_empty,
}

is_unset-status_int : (c : StatusCode) → is_unset c ≡ (status_int c == 0)
unfolding status_int
is_unset-status_int unset = refl
is_unset-status_int ok_status = refl
is_unset-status_int error_status = refl

module _ (F : Type 0) where
  status-nothing_kept :
      (s : Status)
      → nothing_kept {F = F} (status_fields s) ≡ (is_unset s.code && is_empty s.message)
  unfolding nothing_kept status_fields
  status-nothing_kept s = ground (
    arith,
    kept-nonzero F (status_int s.code),
    kept-string F s.message,
    is_unset-status_int s.code,
  )

  read_status-status_fields :
      (s : Status)
      → read_status {F = F} (omit_empty (status_fields s))
        ≡ record { code = status_int s.code; message = s.message }
  unfolding text str_eq value_of has_key distinct read_status status_fields
  read_status-status_fields s =
      let fs = status_fields {F = F} s in
      λ i. record {
        code = read-at read_nat (text "code") fs refl (read_nat-seen F (status_int s.code)) i;
        message = read-at read_text (text "message") fs refl (read_text-seen F s.message) i;
      }

  -- The status is set in both encodings, or in neither.
  read_status-seen :
      (o : Option Status)
      → read_optional {F = F} read_status (seen (encode_status o)) ≡ status_message o
  unfolding read_optional seen kept encode_status status_message
  read_status-seen none = refl
  read_status-seen (some s) =
      read_object-seen read_status (status_fields s) (status-nothing_kept s)
        (read_status-status_fields s)

module _ {F : Type 0} (B : Base64) where
  read_event-encode_span_event :
      (e : SpanEvent F) → read_event B (encode_span_event B.encode e) ≡ event_message e
  unfolding text str_eq value_of has_key distinct read_event encode_span_event event_fields
      event_message
  read_event-encode_span_event e =
      let fs = event_fields B.encode e in
      λ i. record {
        time_unix_nano =
            read-at read_u64 (text "timeUnixNano") fs refl (read_u64-seen F e.time_unix_nano) i;
        name = read-at read_text (text "name") fs refl (read_text-seen F e.name) i;
        attributes =
            read-at (read_attributes B) (text "attributes") fs refl
              (read_attributes-seen B e.attributes) i;
      }

  read_link-encode_span_link :
      (l : SpanLink F) → read_link B (encode_span_link B.encode l) ≡ link_message l
  unfolding text str_eq value_of has_key distinct read_link encode_span_link link_fields
      link_message
  read_link-encode_span_link l =
      let fs = link_fields B.encode l in
      λ i. record {
        trace_id = read-at read_hex (text "traceId") fs refl (read_hex-seen F l.trace_id) i;
        span_id = read-at read_hex (text "spanId") fs refl (read_hex-seen F l.span_id) i;
        trace_state =
            read-at read_text (text "traceState") fs refl (read_text-seen F l.trace_state) i;
        attributes =
            read-at (read_attributes B) (text "attributes") fs refl
              (read_attributes-seen B l.attributes) i;
        flags = read-at read_nat (text "flags") fs refl (read_nat-seen F l.flags) i;
      }

  read_span-encode_span : (s : Span F) → read_span B (encode_span B.encode s) ≡ span_message s
  unfolding text str_eq value_of has_key distinct read_span encode_span span_fields span_message
  read_span-encode_span s =
      let fs = span_fields B.encode s in
      λ i. record {
        trace_id = read-at read_hex (text "traceId") fs refl (read_hex-seen F s.trace_id) i;
        span_id = read-at read_hex (text "spanId") fs refl (read_hex-seen F s.span_id) i;
        parent_span_id =
            read-at read_hex (text "parentSpanId") fs refl
              (read_hex-seen_optional F s.parent_span_id) i;
        name = read-at read_text (text "name") fs refl (read_text-seen F s.name) i;
        kind = read-at read_nat (text "kind") fs refl (read_nat-seen F (span_kind_int s.kind)) i;
        start_time_unix_nano =
            read-at read_u64 (text "startTimeUnixNano") fs refl
              (read_u64-seen F s.start_time_unix_nano) i;
        end_time_unix_nano =
            read-at read_u64 (text "endTimeUnixNano") fs refl (read_u64-seen F s.end_time_unix_nano)
              i;
        trace_state =
            read-at read_text (text "traceState") fs refl (read_text-seen F s.trace_state) i;
        flags = read-at read_nat (text "flags") fs refl (read_nat-seen F s.flags) i;
        attributes =
            read-at (read_attributes B) (text "attributes") fs refl
              (read_attributes-seen B s.attributes) i;
        events =
            read-at (read_list (read_event B)) (text "events") fs refl
              (read_list-seen (read_event B) (encode_span_event B.encode) event_message
                read_event-encode_span_event s.events)
              i;
        links =
            read-at (read_list (read_link B)) (text "links") fs refl
              (read_list-seen (read_link B) (encode_span_link B.encode) link_message
                read_link-encode_span_link s.links)
              i;
        status =
            read-at (read_optional read_status) (text "status") fs refl
              (read_status-seen F s.status) i;
      }

  read_scope_items-scope_spans_fields :
      (ss : ScopeSpans F)
      → read_scope_items B
          (text "spans")
          (read_span B)
          (omit_empty (scope_spans_fields B.encode ss))
        ≡ scope_spans_message ss
  unfolding text str_eq value_of has_key distinct scope_spans_fields scope_spans_message
  read_scope_items-scope_spans_fields ss =
      read_scope_items-omit_empty B (text "spans") (read_span B) ss.scope
        (map (encode_span B.encode) ss.spans) (scope_spans_fields B.encode ss) refl refl refl
        (map-written (read_span B) (encode_span B.encode) span_message read_span-encode_span
          ss.spans)

  read_resource_items-resource_spans_fields :
      (rs : ResourceSpans F)
      → read_resource_items B
          (text "scopeSpans")
          (text "spans")
          (read_span B)
          (omit_empty (resource_spans_fields B.encode rs))
        ≡ resource_spans_message rs
  unfolding text str_eq value_of has_key distinct resource_spans_fields resource_spans_message
  read_resource_items-resource_spans_fields rs =
      read_resource_items-omit_empty B (text "spans") (read_span B) (text "scopeSpans") rs.resource
        (map (λ ss. omit_empty (scope_spans_fields B.encode ss)) rs.scope_spans)
        (resource_spans_fields B.encode rs) refl refl refl
        (map-written (read_scope_items B (text "spans") (read_span B))
          (λ ss. omit_empty (scope_spans_fields B.encode ss)) scope_spans_message
          read_scope_items-scope_spans_fields rs.scope_spans)

  -- What a reader of OTLP/JSON takes from the document that the JSON encoder writes for spans is
  -- the message that the protobuf encoder builds from them, where base64 decodes what it encoded.
  pub read_traces_request-encode_resource_spans :
      (rss : List (ResourceSpans F))
      → read_traces_request B (encode_resource_spans B.encode rss) ≡ traces_request rss
  unfolding text str_eq dict members get find read_traces_request encode_resource_spans
      traces_request
  read_traces_request-encode_resource_spans rss =
      read_each (read_resource_items B (text "scopeSpans") (text "spans") (read_span B))
        (λ rs. omit_empty (resource_spans_fields B.encode rs)) resource_spans_message
        read_resource_items-resource_spans_fields rss
