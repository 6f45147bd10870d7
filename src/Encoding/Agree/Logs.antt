-- ===== src/Encoding/Agree/Logs.antt =====
-- The JSON and the protobuf encoding of log records.
use asyncio_otlp_client.Base.{◌≡◌, refl, List, map, text, str_eq}
use asyncio_otlp_client.Model.Logs.{LogRecord, ScopeLogs, ResourceLogs, severity_int}
use asyncio_otlp_client.Encoding.Json.Tree.{omit_empty, dict, members}
use asyncio_otlp_client.Encoding.Json.Logs.{
  log_fields, encode_log_record, scope_logs_fields, resource_logs_fields, encode_resource_logs,
}
use asyncio_otlp_client.Encoding.Proto.Logs.{
  log_message, scope_logs_message, resource_logs_message, logs_request,
}
use asyncio_otlp_client.Encoding.Reader.Fields.{
  get, find, read_text, read_u64, read_nat, read_hex, read_optional,
}
use asyncio_otlp_client.Encoding.Reader.Common.{
  Base64, read_any, read_attributes, read_scope_items, read_resource_items,
}
use asyncio_otlp_client.Encoding.Reader.Logs.{read_log, read_logs_request}
use asyncio_otlp_client.Encoding.Agree.Fields.{
  value_of, has_key, distinct, read-at, read_text-seen, read_u64-seen, read_nat-seen,
  read_hex-seen_optional, read_each,
}
use asyncio_otlp_client.Encoding.Agree.Common.{read_attributes-seen, read_body-seen}
use asyncio_otlp_client.Encoding.Agree.Envelope.{
  map-written, read_scope_items-omit_empty, read_resource_items-omit_empty,
}

module _ {F : Type 0} (B : Base64) where
  read_log-encode_log_record :
      (r : LogRecord F) → read_log B (encode_log_record B.encode r) ≡ log_message r
  unfolding text str_eq value_of has_key distinct read_log encode_log_record log_fields log_message
  read_log-encode_log_record r =
      let fs = log_fields B.encode r in
      λ i. record {
        time_unix_nano =
            read-at read_u64 (text "timeUnixNano") fs refl (read_u64-seen F r.time_unix_nano) i;
        observed_time_unix_nano =
            read-at read_u64 (text "observedTimeUnixNano") fs refl
              (read_u64-seen F r.observed_time_unix_nano) i;
        severity_number =
            read-at read_nat (text "severityNumber") fs refl
              (read_nat-seen F (severity_int r.severity_number)) i;
        severity_text =
            read-at read_text (text "severityText") fs refl (read_text-seen F r.severity_text) i;
        body =
            read-at (read_optional (read_any B)) (text "body") fs refl (read_body-seen B r.body) i;
        attributes =
            read-at (read_attributes B) (text "attributes") fs refl
              (read_attributes-seen B r.attributes) i;
        trace_id =
            read-at read_hex (text "traceId") fs refl (read_hex-seen_optional F r.trace_id) i;
        span_id = read-at read_hex (text "spanId") fs refl (read_hex-seen_optional F r.span_id) i;
        event_name = read-at read_text (text "eventName") fs refl (read_text-seen F r.event_name) i;
        flags = read-at read_nat (text "flags") fs refl (read_nat-seen F r.flags) i;
      }

  read_scope_items-scope_logs_fields :
      (sl : ScopeLogs F)
      → read_scope_items B
          (text "logRecords")
          (read_log B)
          (omit_empty (scope_logs_fields B.encode sl))
        ≡ scope_logs_message sl
  unfolding text str_eq value_of has_key distinct scope_logs_fields scope_logs_message
  read_scope_items-scope_logs_fields sl =
      read_scope_items-omit_empty B (text "logRecords") (read_log B) sl.scope
        (map (encode_log_record B.encode) sl.log_records) (scope_logs_fields B.encode sl) refl refl
        refl
        (map-written (read_log B) (encode_log_record B.encode) log_message
          read_log-encode_log_record sl.log_records)

  read_resource_items-resource_logs_fields :
      (rl : ResourceLogs F)
      → read_resource_items B
          (text "scopeLogs")
          (text "logRecords")
          (read_log B)
          (omit_empty (resource_logs_fields B.encode rl))
        ≡ resource_logs_message rl
  unfolding text str_eq value_of has_key distinct resource_logs_fields resource_logs_message
  read_resource_items-resource_logs_fields rl =
      read_resource_items-omit_empty B (text "logRecords") (read_log B) (text "scopeLogs")
        rl.resource (map (λ sl. omit_empty (scope_logs_fields B.encode sl)) rl.scope_logs)
        (resource_logs_fields B.encode rl) refl refl refl
        (map-written (read_scope_items B (text "logRecords") (read_log B))
          (λ sl. omit_empty (scope_logs_fields B.encode sl)) scope_logs_message
          read_scope_items-scope_logs_fields rl.scope_logs)

  -- What a reader of OTLP/JSON takes from the document that the JSON encoder writes for log records is
  -- the message that the protobuf encoder builds from them, where base64 decodes what it encoded.
  pub read_logs_request-encode_resource_logs :
      (rls : List (ResourceLogs F))
      → read_logs_request B (encode_resource_logs B.encode rls) ≡ logs_request rls
  unfolding text str_eq dict members get find read_logs_request encode_resource_logs logs_request
  read_logs_request-encode_resource_logs rls =
      read_each (read_resource_items B (text "scopeLogs") (text "logRecords") (read_log B))
        (λ rl. omit_empty (resource_logs_fields B.encode rl)) resource_logs_message
        read_resource_items-resource_logs_fields rls
