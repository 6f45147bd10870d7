-- ===== src/Delivery/Batch.antt =====
-- A batch of a BatchProcessor on its way through the client: `_export_batch` of
-- src/otlp_client/processor.py with the exports of the client that it calls.
use asyncio_otlp_client.Base.{
  ℕ, Bool, Option, List, [], ◌∷◌, map, is_empty, or_default, traverse, Result, ok, ◌>>=◌,
}
use asyncio_otlp_client.Effects.{Eff}
use asyncio_otlp_client.Floats.{Floats, HasSignedZeros}
use asyncio_otlp_client.Config.Defs.{OtlpConfig}
use asyncio_otlp_client.Retry.Defs.{RetryPolicy, Hooks}
use asyncio_otlp_client.Model.Common.{Resource, InstrumentationScope, empty_resource}
use asyncio_otlp_client.Model.Metrics.{Metric}
use asyncio_otlp_client.Model.Logs.{LogRecord}
use asyncio_otlp_client.Model.Traces.{Span}
use asyncio_otlp_client.Outcomes.{Accepted}
use asyncio_otlp_client.Client.Seams.{Encoder, Envelopes, of_metrics, of_logs, of_traces}
use asyncio_otlp_client.Client.Defs.{OtlpClient, resource, default_scope}
use asyncio_otlp_client.Client.Exports.{export_metrics, export_logs, export_traces}
use asyncio_otlp_client.Http.Defs.{Libraries}
use asyncio_otlp_client.Http.Exports.{http_client}
use asyncio_otlp_client.Encoding.Json.Encoder.{Python}
use asyncio_otlp_client.Encoding.Proto.Messages.{ResourceItems}
use asyncio_otlp_client.Encoding.Proto.Common.{resource_message, scope_message}
use asyncio_otlp_client.Encoding.Proto.Metrics.{metric_message}
use asyncio_otlp_client.Encoding.Proto.Logs.{log_message}
use asyncio_otlp_client.Encoding.Proto.Traces.{span_message}
use asyncio_otlp_client.Encoding.Proto.Encoder.{Protobuf}
use asyncio_otlp_client.Encoding.Reader.Common.{Base64}
use asyncio_otlp_client.Delivery.Collector.{
  Message, metrics_message, logs_message, traces_message, Parsers,
}
use asyncio_otlp_client.Delivery.Payload.{IsStandard}
use asyncio_otlp_client.Delivery.Export.{Takes}

-- The records of one signal that were taken from a queue.
pub data Batch (F : Type 0) : Type 0 where
  metrics_batch : List (Metric F) → Batch F
  logs_batch : List (LogRecord F) → Batch F
  traces_batch : List (Span F) → Batch F

abbrev pub no_records : {F : Type 0} → Batch F → Bool
no_records (metrics_batch items) = is_empty items
no_records (logs_batch items) = is_empty items
no_records (traces_batch items) = is_empty items

-- `_export_batch`, with the resource and the scope of the processor, up to what it makes of the result;
-- there is no queue, and so no batch, for profiles
unfoldable pub export_batch :
    (R : Floats) {W : Type 0}
    → OtlpClient W (R.F)
    → ℕ
    → Option (Resource (R.F))
    → Option (InstrumentationScope (R.F))
    → Batch R.F
    → Eff W Accepted
unfolding export_metrics export_logs export_traces
export_batch R client fuel own_resource own_scope (metrics_batch items) =
    export_metrics R client fuel items own_resource own_scope
export_batch R client fuel own_resource own_scope (logs_batch items) =
    export_logs R client fuel items own_resource own_scope
export_batch R client fuel own_resource own_scope (traces_batch items) =
    export_traces R client fuel items own_resource own_scope

module _ {F : Type 0} (r : Resource F) (s : InstrumentationScope F) where
  -- one envelope around the records
  abbrev pub enveloped : Batch F → Envelopes F
  enveloped (metrics_batch items) =
      of_metrics
        (record { resource = r; scope_metrics = record { scope = s; metrics = items } ∷ [] } ∷ [])
  enveloped (logs_batch items) =
      of_logs
        (record { resource = r; scope_logs = record { scope = s; log_records = items } ∷ [] } ∷ [])
  enveloped (traces_batch items) =
      of_traces
        (record { resource = r; scope_spans = record { scope = s; spans = items } ∷ [] } ∷ [])

  abbrev around : {M : Type 0} → List M → List (ResourceItems F M)
  around ms =
      record {
        resource = resource_message r;
        scopes = record { scope = scope_message s; entries = ms } ∷ [];
      }
      ∷ []

  -- The message that has one resource, one scope, and the records in their order.
  abbrev pub batch_message : Batch F → Result (Message F)
  batch_message (metrics_batch items) =
      traverse metric_message items >>= λ ms. ok (metrics_message (around ms))
  batch_message (logs_batch items) = ok (logs_message (around (map log_message items)))
  batch_message (traces_batch items) = ok (traces_message (around (map span_message items)))

module _ (R : Floats) {W : Type 0} (B : Base64) (zeros : HasSignedZeros R) (P : Python (R.F))
    (Q : Protobuf (R.F)) (C : Parsers (R.F)) (L : Libraries W (R.F)) (hooks : Hooks W (R.F))
    (std : IsStandard R B P Q (L.compress) C) (collector : Takes L hooks) where
  module _ (config : OtlpConfig (R.F)) (encoder : Encoder (R.F)) (owns_session : Bool)
      (scope : Option (InstrumentationScope (R.F))) (policy : Option (RetryPolicy (R.F))) (fuel : ℕ)
      (own_resource : Option (Resource (R.F)))
      (own_scope : Option (InstrumentationScope (R.F))) where
    abbrev client : OtlpClient W (R.F)
    client = http_client R L config encoder owns_session scope policy hooks

    -- the processor's resource and scope, or the client's, or the defaults
    abbrev pub sent_resource : Resource R.F
    sent_resource = or_default (or_default empty_resource config.resource) own_resource

    abbrev pub sent_scope : InstrumentationScope R.F
    sent_scope = or_default (or_default default_scope scope) own_scope
