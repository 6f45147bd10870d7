-- ===== src/Client/Seams.antt =====
-- The seams of the client as interfaces over a world `W`: the protocols of
-- src/otlp_client/encoding/base.py, transport/base.py and credentials.py, and the envelopes.
use asyncio_otlp_client.Base.{Bool, Option, List, Str, is_empty, Result}
use asyncio_otlp_client.Effects.{Eff}
use asyncio_otlp_client.Signals.{SignalKind, metrics, logs, traces}
use asyncio_otlp_client.Outcomes.{PartialSuccess, ExportOutcome}
use asyncio_otlp_client.Config.Defs.{Headers}
use asyncio_otlp_client.Model.Common.{Bytes}
use asyncio_otlp_client.Model.Logs.{ResourceLogs}
use asyncio_otlp_client.Model.Metrics.{ResourceMetrics}
use asyncio_otlp_client.Model.Traces.{ResourceSpans}

-- The envelopes of one export; the signal that `_export` is given is the constructor's.
pub data Envelopes (F : Type 0) : Type 0 where
  of_metrics : List (ResourceMetrics F) → Envelopes F
  of_logs : List (ResourceLogs F) → Envelopes F
  of_traces : List (ResourceSpans F) → Envelopes F

pub record Encoder (F : Type 0) : Type 0 where
  pub content_type : Str
  pub encode : Envelopes F → Result Bytes
  pub decode_response : SignalKind → Bytes → Result (Option PartialSuccess)

pub record Transport (W F : Type 0) : Type 0 where
  pub send : SignalKind → Bytes → Headers → Eff W (ExportOutcome F)
  pub aclose : Eff W (Unit {0})

pub record CredentialProvider (W : Type 0) : Type 0 where
  pub headers : SignalKind → Eff W Headers
  pub invalidate : SignalKind → Eff W (Unit {0})

-- The signal and whether the list of envelopes is empty.
abbrev pub kind_of : {F : Type 0} → Envelopes F → SignalKind
kind_of (of_metrics d) = metrics
kind_of (of_logs d) = logs
kind_of (of_traces d) = traces

abbrev pub no_data : {F : Type 0} → Envelopes F → Bool
no_data (of_metrics d) = is_empty d
no_data (of_logs d) = is_empty d
no_data (of_traces d) = is_empty d
