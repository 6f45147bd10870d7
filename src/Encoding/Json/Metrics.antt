-- ===== src/Encoding/Json/Metrics.antt =====
-- The metrics of src/otlp_client/encoding/json.py.
use asyncio_otlp_client.Base.{Bool, List, [], ◌∷◌, map, Str, text, Result, ok, ◌>>=◌, traverse}
use asyncio_otlp_client.Base.Int.{pos}
use asyncio_otlp_client.Floats.{Floats}
use asyncio_otlp_client.Model.Common.{Bytes}
use asyncio_otlp_client.Model.Metrics.{
  MetricData, gauge_data, sum_data, histogram_data, exponential_data, summary_data, Metric,
  ScopeMetrics, ResourceMetrics, AggregationTemporality, temporality_int,
}
use asyncio_otlp_client.Encoding.Json.Tree.{
  Json, boolean, integer, string, Fields, dict, list, omit_empty,
}
use asyncio_otlp_client.Encoding.Json.Common.{encode_resource, encode_scope}
use asyncio_otlp_client.Encoding.Json.Points.{
  encode_number_point, encode_histogram_point, encode_exponential_point, encode_summary_point,
}

-- the entries of the five kinds of data, with their encoded points
module _ {F : Type 0} where
  abbrev pub gauge_field : List (Json F) → Str × Json F
  gauge_field ps = (text "gauge", dict ((text "dataPoints", list ps) ∷ []))

  abbrev pub sum_field : List (Json F) → AggregationTemporality → Bool → Str × Json F
  sum_field ps temporality monotonic = (
    text "sum",
    dict (
        (text "dataPoints", list ps)
        ∷ (text "aggregationTemporality", integer (pos (temporality_int temporality)))
        ∷ (text "isMonotonic", boolean monotonic)
        ∷ []),
  )

  abbrev pub histogram_field : Str → List (Json F) → AggregationTemporality → Str × Json F
  histogram_field key ps temporality = (
    key,
    dict (
        (text "dataPoints", list ps)
        ∷ (text "aggregationTemporality", integer (pos (temporality_int temporality)))
        ∷ []),
  )

  abbrev pub summary_field : List (Json F) → Str × Json F
  summary_field ps = (text "summary", dict ((text "dataPoints", list ps) ∷ []))

module _ (R : Floats) (b64 : Bytes → Str) where
  -- the entry `**body` of `_encode_metric`
  unfoldable pub metric_body : MetricData R.F → Result (Str × Json R.F)
  unfolding encode_number_point encode_histogram_point encode_exponential_point traverse
  metric_body (gauge_data points) =
      traverse (encode_number_point R b64) points >>= λ ps. ok (gauge_field ps)
  metric_body (sum_data points temporality monotonic) =
      traverse (encode_number_point R b64) points >>= λ ps. ok (sum_field ps temporality monotonic)
  metric_body (histogram_data points temporality) =
      traverse (encode_histogram_point R b64) points >>= λ ps.
      ok (histogram_field (text "histogram") ps temporality)
  metric_body (exponential_data points temporality) =
      traverse (encode_exponential_point R b64) points >>= λ ps.
      ok (histogram_field (text "exponentialHistogram") ps temporality)
  metric_body (summary_data points) = ok (summary_field (map (encode_summary_point R b64) points))

  unfoldable pub metric_fields : Metric R.F → Str × Json R.F → Fields R.F
  metric_fields m body =
      (text "name", string m.name)
      ∷ (text "description", string m.description)
      ∷ (text "unit", string m.unit)
      ∷ body
      ∷ []

  -- `_encode_metric`
  unfoldable pub encode_metric : Metric R.F → Result (Json R.F)
  unfolding metric_body metric_fields omit_empty
  encode_metric m = metric_body m.body >>= λ body. ok (omit_empty (metric_fields m body))

  unfoldable pub scope_metrics_fields : ScopeMetrics R.F → List (Json R.F) → Fields R.F
  scope_metrics_fields sm metrics =
      (text "scope", encode_scope b64 sm.scope) ∷ (text "metrics", list metrics) ∷ []

  -- `_encode_scope_metrics`
  unfoldable pub encode_scope_metrics : ScopeMetrics R.F → Result (Json R.F)
  unfolding encode_metric scope_metrics_fields omit_empty traverse
  encode_scope_metrics sm = traverse encode_metric sm.metrics >>= λ metrics.
      ok (omit_empty (scope_metrics_fields sm metrics))

  unfoldable pub resource_metrics_fields : ResourceMetrics R.F → List (Json R.F) → Fields R.F
  resource_metrics_fields rm scopes =
      (text "resource", encode_resource b64 rm.resource) ∷ (text "scopeMetrics", list scopes) ∷ []

  -- one element of the list in `_encode_resource_metrics`
  unfoldable pub encode_resource_metric : ResourceMetrics R.F → Result (Json R.F)
  unfolding encode_scope_metrics resource_metrics_fields omit_empty traverse
  encode_resource_metric rm = traverse encode_scope_metrics rm.scope_metrics >>= λ scopes.
      ok (omit_empty (resource_metrics_fields rm scopes))

  -- `_encode_resource_metrics`
  unfoldable pub encode_resource_metrics : List (ResourceMetrics R.F) → Result (Json R.F)
  unfolding encode_resource_metric dict traverse
  encode_resource_metrics rms = traverse encode_resource_metric rms >>= λ entries.
      ok (dict ((text "resourceMetrics", list entries) ∷ []))
