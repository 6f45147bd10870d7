-- ===== src/Client/Exports.antt =====
-- src/otlp_client/client.py: `_export` with its retries, the exports built on it, and closing.
use asyncio_otlp_client.Base.{
  ℕ, ◌++◌, false, Option, List, [], ◌∷◌, text, is_empty, if◌then◌else◌, or_default, transport_error,
  permanent_error, Result, ok, raised, stuck,
}
use asyncio_otlp_client.Effects.{Eff, pure, ◌>>=◌}
use asyncio_otlp_client.Floats.{Floats}
use asyncio_otlp_client.Signals.{SignalKind, kind_name}
use asyncio_otlp_client.Outcomes.{
  ExportOutcome, success, partial_success, retryable, permanent, Accepted, all_accepted,
  some_rejected,
}
use asyncio_otlp_client.Retry.Defs.{with_retry}
use asyncio_otlp_client.Model.Common.{Bytes, Resource, InstrumentationScope}
use asyncio_otlp_client.Model.Logs.{LogRecord, ResourceLogs}
use asyncio_otlp_client.Model.Metrics.{Metric, ResourceMetrics}
use asyncio_otlp_client.Model.Traces.{Span, ResourceSpans}
use asyncio_otlp_client.Client.Seams.{Envelopes, of_metrics, of_logs, of_traces, kind_of, no_data}
use asyncio_otlp_client.Client.Defs.{
  OtlpClient, resource, Exporting, lift_hooks, status_text, attempt,
}

-- what `_export` makes of the outcome of `with_retry`
unfoldable pub conclude : {F : Type 0} → SignalKind → ExportOutcome F → Result Accepted
unfolding status_text
conclude kind success = ok all_accepted
conclude kind (partial_success p) = ok (some_rejected p)
conclude kind (permanent status message) = raised (
    permanent_error (
      text "collector rejected "
      ++ (kind_name kind ++ (text " (status " ++ (status_text status ++ (text "): " ++ message))))))
conclude kind (retryable status message hint) = raised (
    transport_error
      (text "could not deliver " ++ (kind_name kind ++ (text " after retries: " ++ message))))

unfoldable pub conclude_result :
    {F : Type 0} → SignalKind → Result (ExportOutcome F) → Result Accepted
unfolding conclude
conclude_result kind (ok outcome) = conclude kind outcome
conclude_result kind (raised exc) = raised exc
conclude_result kind stuck = stuck

module _ (R : Floats) {W : Type 0} (client : OtlpClient W (R.F)) (fuel : ℕ) where
  open R use {F}

  unfoldable pub deliver : SignalKind → Bytes → Eff (Exporting W) (ExportOutcome F)
  unfolding attempt
  deliver kind payload =
      with_retry R client.policy (lift_hooks client.hooks) (attempt client kind payload) fuel

  -- `_export` once the payload is encoded
  unfoldable pub export_payload : SignalKind → Bytes → Eff W Accepted
  unfolding deliver conclude_result
  export_payload kind payload w =
      let (r, (w', reauthed)) = deliver kind payload (w, false) in (conclude_result kind r, w')

  -- `_export`; `fuel` is for the rounds of `with_retry`
  unfoldable pub export : Envelopes F → Eff W Accepted
  unfolding export_payload
  export envelopes =
      if no_data envelopes
      then pure all_accepted
      else (λ w. (client.encoder.encode envelopes, w)) >>= export_payload (kind_of envelopes)

  unfoldable pub export_resource_metrics : List (ResourceMetrics F) → Eff W Accepted
  unfolding export
  export_resource_metrics envelopes = export (of_metrics envelopes)

  unfoldable pub export_metrics :
      List (Metric F) → Option (Resource F) → Option (InstrumentationScope F) → Eff W Accepted
  unfolding export_resource_metrics resource
  export_metrics items own_resource own_scope =
      if is_empty items
      then pure all_accepted
      else export_resource_metrics (
          record {
            resource = or_default (resource client) own_resource;
            scope_metrics =
                record { scope = or_default client.scope own_scope; metrics = items } ∷ [];
          }
          ∷ [])

  unfoldable pub export_resource_logs : List (ResourceLogs F) → Eff W Accepted
  unfolding export
  export_resource_logs envelopes = export (of_logs envelopes)

  unfoldable pub export_logs :
      List (LogRecord F) → Option (Resource F) → Option (InstrumentationScope F) → Eff W Accepted
  unfolding export_resource_logs resource
  export_logs records own_resource own_scope =
      if is_empty records
      then pure all_accepted
      else export_resource_logs (
          record {
            resource = or_default (resource client) own_resource;
            scope_logs =
                record { scope = or_default client.scope own_scope; log_records = records } ∷ [];
          }
          ∷ [])

  unfoldable pub export_resource_spans : List (ResourceSpans F) → Eff W Accepted
  unfolding export
  export_resource_spans envelopes = export (of_traces envelopes)

  unfoldable pub export_traces :
      List (Span F) → Option (Resource F) → Option (InstrumentationScope F) → Eff W Accepted
  unfolding export_resource_spans resource
  export_traces items own_resource own_scope =
      if is_empty items
      then pure all_accepted
      else export_resource_spans (
          record {
            resource = or_default (resource client) own_resource;
            scope_spans = record { scope = or_default client.scope own_scope; spans = items } ∷ [];
          }
          ∷ [])

  -- `aclose` and `__aexit__`: the transport is closed, the credentials are the caller's
  unfoldable pub aclose : Eff W (Unit {0})
  aclose = client.transport.aclose
