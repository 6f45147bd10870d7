-- ===== src/Encoding/Json/Logs.antt =====
-- The log records of src/otlp_client/encoding/json.py.
use asyncio_otlp_client.Base.{List, [], ◌∷◌, text}
use asyncio_otlp_client.Base.{Str}
use asyncio_otlp_client.Model.Common.{Bytes}
use asyncio_otlp_client.Model.Logs.{LogRecord, ScopeLogs, ResourceLogs, severity_int}
use asyncio_otlp_client.Encoding.Json.Tree.{Json, string, Fields, dict, omit_empty, each, nonzero}
use asyncio_otlp_client.Encoding.Json.Common.{
  u64, optional_hex, encode_any_value, encode_attributes, encode_resource, encode_scope,
}

module _ {F : Type 0} (b64 : Bytes → Str) where
  unfoldable pub log_fields : LogRecord F → Fields F
  log_fields r =
      (text "timeUnixNano", u64 r.time_unix_nano)
      ∷ (text "observedTimeUnixNano", u64 r.observed_time_unix_nano)
      ∷ (text "severityNumber", nonzero (severity_int r.severity_number))
      ∷ (text "severityText", string r.severity_text)
      ∷ (text "body", encode_any_value b64 r.body)
      ∷ (text "attributes", encode_attributes b64 r.attributes)
      ∷ (text "traceId", optional_hex r.trace_id)
      ∷ (text "spanId", optional_hex r.span_id)
      ∷ (text "eventName", string r.event_name)
      ∷ (text "flags", nonzero r.flags)
      ∷ []

  -- `_encode_log_record`
  unfoldable pub encode_log_record : LogRecord F → Json F
  unfolding log_fields omit_empty
  encode_log_record r = omit_empty (log_fields r)

  unfoldable pub scope_logs_fields : ScopeLogs F → Fields F
  scope_logs_fields sl =
      (text "scope", encode_scope b64 sl.scope)
      ∷ (text "logRecords", each encode_log_record sl.log_records)
      ∷ []

  unfoldable pub resource_logs_fields : ResourceLogs F → Fields F
  unfolding scope_logs_fields omit_empty
  resource_logs_fields rl =
      (text "resource", encode_resource b64 rl.resource)
      ∷ (text "scopeLogs", each (λ sl. omit_empty (scope_logs_fields sl)) rl.scope_logs)
      ∷ []

  -- `_encode_resource_logs`
  unfoldable pub encode_resource_logs : List (ResourceLogs F) → Json F
  unfolding resource_logs_fields dict
  encode_resource_logs rls =
      dict ((text "resourceLogs", each (λ rl. omit_empty (resource_logs_fields rl)) rls) ∷ [])
