-- ===== src/Model/Logs.antt =====
-- src/otlp_client/model/logs.py: the logs data model.
use asyncio_otlp_client.Base.{ℕ, Option, List, Str, text}
use asyncio_otlp_client.Base.Int.{ℤ}
use asyncio_otlp_client.Model.Common.{AnyValue, Attributes, Bytes, InstrumentationScope, Resource}

pub data SeverityNumber : Type 0 where
  unspecified trace debug info warn error fatal : SeverityNumber

-- `int(severity)`
unfoldable pub severity_int : SeverityNumber → ℕ
severity_int unspecified = 0
severity_int trace = 1
severity_int debug = 5
severity_int info = 9
severity_int warn = 13
severity_int error = 17
severity_int fatal = 21

-- `severity.name`
unfoldable pub severity_name : SeverityNumber → Str
severity_name unspecified = text "UNSPECIFIED"
severity_name trace = text "TRACE"
severity_name debug = text "DEBUG"
severity_name info = text "INFO"
severity_name warn = text "WARN"
severity_name error = text "ERROR"
severity_name fatal = text "FATAL"

pub record LogRecord (F : Type 0) : Type 0 where
  pub time_unix_nano : ℤ
  pub body : AnyValue F
  pub observed_time_unix_nano : ℤ
  pub severity_number : SeverityNumber
  pub severity_text : Str
  pub attributes : Attributes F
  pub trace_id : Option Bytes
  pub span_id : Option Bytes
  pub event_name : Str
  pub flags : ℕ

pub record ScopeLogs (F : Type 0) : Type 0 where
  pub scope : InstrumentationScope F
  pub log_records : List (LogRecord F)

pub record ResourceLogs (F : Type 0) : Type 0 where
  pub resource : Resource F
  pub scope_logs : List (ScopeLogs F)
