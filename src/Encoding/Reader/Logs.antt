-- ===== src/Encoding/Reader/Logs.antt =====
-- Log records.
use asyncio_otlp_client.Base.{List, text}
use asyncio_otlp_client.Encoding.Json.Tree.{Json}
use asyncio_otlp_client.Encoding.Proto.Messages.{LogMessage, ResourceItems}
use asyncio_otlp_client.Encoding.Reader.Fields.{
  get, read_text, read_u64, read_nat, read_hex, read_optional, read_list,
}
use asyncio_otlp_client.Encoding.Reader.Common.{
  Base64, read_any, read_attributes, read_resource_items,
}

module _ {F : Type 0} (B : Base64) where
  unfoldable pub read_log : Json F → LogMessage F
  unfolding get
  read_log doc = record {
    time_unix_nano = read_u64 (get (text "timeUnixNano") doc);
    observed_time_unix_nano = read_u64 (get (text "observedTimeUnixNano") doc);
    severity_number = read_nat (get (text "severityNumber") doc);
    severity_text = read_text (get (text "severityText") doc);
    body = read_optional (read_any B) (get (text "body") doc);
    attributes = read_attributes B (get (text "attributes") doc);
    trace_id = read_hex (get (text "traceId") doc);
    span_id = read_hex (get (text "spanId") doc);
    event_name = read_text (get (text "eventName") doc);
    flags = read_nat (get (text "flags") doc);
  }

  unfoldable pub read_logs_request : Json F → List (ResourceItems F (LogMessage F))
  unfolding read_log read_resource_items get read_list
  read_logs_request doc =
      read_list (read_resource_items B (text "scopeLogs") (text "logRecords") read_log)
        (get (text "resourceLogs") doc)
