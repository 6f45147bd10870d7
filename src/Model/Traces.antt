-- ===== src/Model/Traces.antt =====
-- src/otlp_client/model/traces.py: the traces data model.
use asyncio_otlp_client.Base.{ℕ, Option, List, Str}
use asyncio_otlp_client.Base.Int.{ℤ}
use asyncio_otlp_client.Model.Common.{Attributes, Bytes, InstrumentationScope, Resource}

pub data SpanKind : Type 0 where
  unspecified internal server client producer consumer : SpanKind

-- `int(kind)`
unfoldable pub span_kind_int : SpanKind → ℕ
span_kind_int unspecified = 0
span_kind_int internal = 1
span_kind_int server = 2
span_kind_int client = 3
span_kind_int producer = 4
span_kind_int consumer = 5

pub data StatusCode : Type 0 where
  unset ok_status error_status : StatusCode

-- `int(code)`
unfoldable pub status_int : StatusCode → ℕ
status_int unset = 0
status_int ok_status = 1
status_int error_status = 2

pub record Status : Type 0 where
  pub code : StatusCode
  pub message : Str

pub record SpanEvent (F : Type 0) : Type 0 where
  pub time_unix_nano : ℤ
  pub name : Str
  pub attributes : Attributes F

pub record SpanLink (F : Type 0) : Type 0 where
  pub trace_id : Bytes
  pub span_id : Bytes
  pub trace_state : Str
  pub attributes : Attributes F
  pub flags : ℕ

pub record Span (F : Type 0) : Type 0 where
  pub trace_id : Bytes
  pub span_id : Bytes
  pub name : Str
  pub start_time_unix_nano : ℤ
  pub end_time_unix_nano : ℤ
  pub kind : SpanKind
  pub parent_span_id : Option Bytes
  pub trace_state : Str
  pub flags : ℕ
  pub attributes : Attributes F
  pub events : List (SpanEvent F)
  pub links : List (SpanLink F)
  pub status : Option Status

pub record ScopeSpans (F : Type 0) : Type 0 where
  pub scope : InstrumentationScope F
  pub spans : List (Span F)

pub record ResourceSpans (F : Type 0) : Type 0 where
  pub resource : Resource F
  pub scope_spans : List (ScopeSpans F)
