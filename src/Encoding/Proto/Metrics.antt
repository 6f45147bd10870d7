-- ===== src/Encoding/Proto/Metrics.antt =====
-- `_metric` and `_encode_metrics` of protobuf.py, up to the call of `SerializeToString`: the keyword
-- arguments that the generated classes are given, and the `TypeError` of a bool. What the classes refuse,
-- as an integer out of the range of its field, is in `serialize_metrics` of Encoder.
use asyncio_otlp_client.Base.{ℕ, Bool, Option, some, List, map, Str, Result, ok, ◌>>=◌, traverse}
use asyncio_otlp_client.Model.Metrics.{
  MetricData, gauge_data, sum_data, histogram_data, exponential_data, summary_data, Metric,
  ScopeMetrics, ResourceMetrics, temporality_int,
}
use asyncio_otlp_client.Encoding.Proto.Messages.{ScopeItems, ResourceItems}
use asyncio_otlp_client.Encoding.Proto.Common.{resource_message, scope_message}
use asyncio_otlp_client.Encoding.Proto.Points.{
  NumberPointMessage, HistogramPointMessage, ExponentialPointMessage, SummaryPointMessage,
  number_point_message, histogram_point_message, exponential_point_message, summary_point_message,
}

-- the oneof `data`, with `data_points`, `aggregation_temporality` and `is_monotonic`
pub data DataMessage (F : Type 0) : Type 0 where
  gauge_message : List (NumberPointMessage F) → DataMessage F
  sum_message : List (NumberPointMessage F) → ℕ → Bool → DataMessage F
  histogram_message : List (HistogramPointMessage F) → ℕ → DataMessage F
  exponential_message : List (ExponentialPointMessage F) → ℕ → DataMessage F
  summary_message : List (SummaryPointMessage F) → DataMessage F

pub record MetricMessage (F : Type 0) : Type 0 where
  pub name : Str
  pub description : Str
  pub unit : Str
  pub body : Option (DataMessage F)

module _ {F : Type 0} where
  unfoldable pub data_message : MetricData F → Result (DataMessage F)
  unfolding number_point_message histogram_point_message exponential_point_message traverse
  data_message (gauge_data points) =
      traverse number_point_message points >>= λ ps. ok (gauge_message ps)
  data_message (sum_data points temporality monotonic) =
      traverse number_point_message points >>= λ ps.
      ok (sum_message ps (temporality_int temporality) monotonic)
  data_message (histogram_data points temporality) =
      traverse histogram_point_message points >>= λ ps.
      ok (histogram_message ps (temporality_int temporality))
  data_message (exponential_data points temporality) =
      traverse exponential_point_message points >>= λ ps.
      ok (exponential_message ps (temporality_int temporality))
  data_message (summary_data points) = ok (summary_message (map summary_point_message points))

  -- `_metric`
  unfoldable pub metric_message : Metric F → Result (MetricMessage F)
  unfolding data_message
  metric_message m = data_message m.body >>= λ body.
      ok (record { name = m.name; description = m.description; unit = m.unit; body = some body })

  unfoldable pub scope_metrics_message : ScopeMetrics F → Result (ScopeItems F (MetricMessage F))
  unfolding metric_message traverse
  scope_metrics_message sm = traverse metric_message sm.metrics >>= λ metrics.
      ok (record { scope = scope_message sm.scope; entries = metrics })

  unfoldable pub resource_metrics_message :
      ResourceMetrics F → Result (ResourceItems F (MetricMessage F))
  unfolding scope_metrics_message traverse
  resource_metrics_message rm = traverse scope_metrics_message rm.scope_metrics >>= λ scopes.
      ok (record { resource = resource_message rm.resource; scopes = scopes })

  -- the arguments of the request of `_encode_metrics`, not yet checked by the generated classes
  unfoldable pub metrics_request :
      List (ResourceMetrics F) → Result (List (ResourceItems F (MetricMessage F)))
  unfolding resource_metrics_message traverse
  metrics_request rms = traverse resource_metrics_message rms
