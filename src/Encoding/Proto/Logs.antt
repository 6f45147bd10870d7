-- ===== src/Encoding/Proto/Logs.antt =====
-- `_log_record` and `_encode_logs` of protobuf.py, up to the call of `SerializeToString`.
use asyncio_otlp_client.Base.{some, List, [], map, or_default}
use asyncio_otlp_client.Model.Logs.{LogRecord, ScopeLogs, ResourceLogs, severity_int}
use asyncio_otlp_client.Encoding.Proto.Messages.{LogMessage, ScopeItems, ResourceItems}
use asyncio_otlp_client.Encoding.Proto.Common.{
  any_value, key_values, resource_message, scope_message,
}

module _ {F : Type 0} where
  -- `_log_record`
  unfoldable pub log_message : LogRecord F → LogMessage F
  log_message r = record {
    time_unix_nano = r.time_unix_nano;
    observed_time_unix_nano = r.observed_time_unix_nano;
    severity_number = severity_int r.severity_number;
    severity_text = r.severity_text;
    body = some (any_value r.body);
    attributes = key_values r.attributes;
    trace_id = or_default [] r.trace_id;
    span_id = or_default [] r.span_id;
    event_name = r.event_name;
    flags = r.flags;
  }

  unfoldable pub scope_logs_message : ScopeLogs F → ScopeItems F (LogMessage F)
  unfolding log_message
  scope_logs_message sl = record {
    scope = scope_message sl.scope;
    entries = map log_message sl.log_records;
  }

  unfoldable pub resource_logs_message : ResourceLogs F → ResourceItems F (LogMessage F)
  unfolding scope_logs_message
  resource_logs_message rl = record {
    resource = resource_message rl.resource;
    scopes = map scope_logs_message rl.scope_logs;
  }

  -- the request of `_encode_logs`
  unfoldable pub logs_request : List (ResourceLogs F) → List (ResourceItems F (LogMessage F))
  unfolding resource_logs_message
  logs_request rls = map resource_logs_message rls
