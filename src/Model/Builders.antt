-- ===== src/Model/Builders.antt =====
-- The builder functions of the model: `log_record`, `gauge`, `sum_`, `span` and the two flag words.
-- An argument with the default `None` is an `Option`.
use Prim.Native.Nat.{bit_and, bit_or}
use asyncio_otlp_client.Base.{
  ℕ, ◌≡◌, ◌↔◌, refl, Bool, true, false, ◌&&◌, Option, none, some, List, [], ◌∷◌, Str, is_empty,
  if◌then◌else◌, or_default, ◌==◌, arith,
}
use asyncio_otlp_client.Base.Int.{ℤ}
use asyncio_otlp_client.Model.Common.{AnyValue, Attributes, Bytes, end}
use asyncio_otlp_client.Model.Logs.{LogRecord, SeverityNumber, severity_name}
use asyncio_otlp_client.Model.Metrics.{
  Metric, gauge_data, sum_data, Number, NumberDataPoint, AggregationTemporality,
}
use asyncio_otlp_client.Model.Traces.{
  Span, SpanKind, SpanEvent, SpanLink, Status, StatusCode, unset,
}

-- `"" if severity is UNSPECIFIED else severity.name`
unfoldable pub default_severity_text : SeverityNumber → Str
default_severity_text SeverityNumber.unspecified = []
default_severity_text severity = severity_name severity

-- `value if value is not None else default`, where the builder's own default is computed
module _ {F : Type 0} where
  unfoldable pub log_record :
      AnyValue F
      → (time : ℤ) (observed : Option ℤ) (severity : SeverityNumber) (severity_text : Option Str)
        (attributes : Option (Attributes F)) (trace_id : Option Bytes) (span_id : Option Bytes)
        (event_name : Str)
      → LogRecord F
  unfolding default_severity_text
  log_record body time observed severity severity_text attributes trace_id span_id event_name =
      record {
        time_unix_nano = time;
        body = body;
        observed_time_unix_nano = or_default time observed;
        severity_number = severity;
        severity_text = or_default (default_severity_text severity) severity_text;
        attributes = or_default end attributes;
        trace_id = trace_id;
        span_id = span_id;
        event_name = event_name;
        flags = 0;
      }

  unfoldable pub gauge :
      (name : Str) (value : Number F) (time : ℤ) (unit description : Str)
      (attributes : Option (Attributes F))
      → Metric F
  gauge name value time unit description attributes =
      let point : NumberDataPoint F = record {
        time_unix_nano = time;
        value = value;
        attributes = or_default end attributes;
        start_time_unix_nano = none;
        exemplars = [];
        flags = 0;
      } in
      record { name = name; body = gauge_data (point ∷ []); description = description; unit = unit }

  unfoldable pub sum_ :
      (name : Str) (value : Number F) (time : ℤ) (start_time : Option ℤ) (unit description : Str)
      (attributes : Option (Attributes F)) (is_monotonic : Bool)
      (temporality : AggregationTemporality)
      → Metric F
  sum_ name value time start_time unit description attributes is_monotonic temporality =
      let point : NumberDataPoint F = record {
        time_unix_nano = time;
        value = value;
        attributes = or_default end attributes;
        start_time_unix_nano = start_time;
        exemplars = [];
        flags = 0;
      } in
      record {
        name = name;
        body = sum_data (point ∷ []) temporality is_monotonic;
        description = description;
        unit = unit;
      }

-- `status_code is UNSET`
abbrev pub is_unset : StatusCode → Bool
is_unset unset = true
is_unset _ = false

-- the status that `span` gives its span
unfoldable pub span_status : StatusCode → Str → Option Status
span_status code message =
    if is_unset code && is_empty message
    then none
    else some (record { code = code; message = message })

module _ {F : Type 0} where
  unfoldable pub span :
      (name : Str) (trace_id span_id : Bytes) (start_time end_time : ℤ) (kind : SpanKind)
      (parent_span_id : Option Bytes) (trace_state : Str) (flags : ℕ)
      (attributes : Option (Attributes F)) (events : List (SpanEvent F)) (links : List (SpanLink F))
      (status_code : StatusCode) (status_message : Str)
      → Span F
  unfolding span_status
  span name trace_id span_id start_time end_time kind parent_span_id trace_state flags attributes
        events links status_code status_message =
      record {
        trace_id = trace_id;
        span_id = span_id;
        name = name;
        start_time_unix_nano = start_time;
        end_time_unix_nano = end_time;
        kind = kind;
        parent_span_id = parent_span_id;
        trace_state = trace_state;
        flags = flags;
        attributes = or_default end attributes;
        events = events;
        links = links;
        status = span_status status_code status_message;
      }

unfoldable pub data_point_flags : Bool → ℕ
data_point_flags no_recorded_value = if no_recorded_value then 1 else 0

-- `SPAN_FLAGS_CONTEXT_HAS_IS_REMOTE` and `SPAN_FLAGS_CONTEXT_IS_REMOTE`
abbrev pub has_is_remote : ℕ
has_is_remote = 0x100

abbrev pub is_remote_bit : ℕ
is_remote_bit = 0x200

unfoldable pub span_flags : Bool → Option Bool → ℕ
span_flags sampled none = if sampled then 1 else 0
span_flags sampled (some is_remote) =
    let flags = bit_or (if sampled then 1 else 0) has_is_remote in
    if is_remote then bit_or flags is_remote_bit else flags

-- What a reader of the flags gets back, by the masks that the module defines.
unfoldable pub read_flags : ℕ → Bool × Option Bool
read_flags flags = (
  bit_and flags 1 == 1,
  if bit_and flags has_is_remote == 0
      then none
      else some (bit_and flags is_remote_bit == is_remote_bit),
)

-- The flag word gives back both arguments, the unknown `is_remote` told from a known one; the bits
-- of the trace flags hold the sampled bit alone.
pub read_flags-span_flags :
    (sampled : Bool) (is_remote : Option Bool)
    → (read_flags (span_flags sampled is_remote) ≡ (sampled, is_remote))
      × (bit_and (span_flags sampled is_remote) 0xff ≡ (if sampled then 1 else 0))
unfolding read_flags span_flags
read_flags-span_flags true none = (refl, refl)
read_flags-span_flags false none = (refl, refl)
read_flags-span_flags true (some true) = (refl, refl)
read_flags-span_flags true (some false) = (refl, refl)
read_flags-span_flags false (some true) = (refl, refl)
read_flags-span_flags false (some false) = (refl, refl)

-- A span carries a status exactly if its code is set or its message is not empty, and then it is
-- the one that was given.
span_status-none_iff :
    (code : StatusCode) (message : Str)
    → ((span_status code message ≡ none) ↔ ((code ≡ unset) × (message ≡ [])))
      × ((s : Status) → span_status code message ≡ some s → (s.code ≡ code) × (s.message ≡ message))
unfolding span_status
span_status-none_iff code [] = ground arith
span_status-none_iff code (x ∷ xs) = ground arith
