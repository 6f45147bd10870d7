-- ===== src/Encoding/Agree/Metrics.antt =====
-- The JSON and the protobuf encoding of metrics.
use asyncio_otlp_client.Base.{
  ◌≡◌, refl, ap, Exc, ok, raised, type_error, ◌⊎◌, inl, inr, both_return, both_refuse, ◌∙◌, true,
  Option, some, List, map, text, str_eq, Str, Agree, Agree-ok, Agree-bind, Agree-map,
  Agree-traverse,
}
use asyncio_otlp_client.Floats.{Floats, HasSignedZeros}
use asyncio_otlp_client.Model.Metrics.{
  MetricData, gauge_data, sum_data, histogram_data, exponential_data, summary_data, Metric,
  ScopeMetrics, ResourceMetrics, temporality_int,
}
use asyncio_otlp_client.Client.Seams.{of_metrics}
use asyncio_otlp_client.Encoding.Json.Tree.{Json, Fields, omit_empty, dict, members, kept}
use asyncio_otlp_client.Encoding.Json.Metrics.{
  gauge_field, sum_field, histogram_field, summary_field, metric_body, metric_fields, encode_metric,
  scope_metrics_fields, encode_scope_metrics, resource_metrics_fields, encode_resource_metric,
  encode_resource_metrics,
}
use asyncio_otlp_client.Encoding.Json.Points.{encode_summary_point}
use asyncio_otlp_client.Encoding.Proto.Points.{summary_point_message}
use asyncio_otlp_client.Encoding.Proto.Metrics.{
  DataMessage, gauge_message, sum_message, histogram_message, exponential_message, summary_message,
  MetricMessage, data_message, metric_message, scope_metrics_message, resource_metrics_message,
  metrics_request,
}
use asyncio_otlp_client.Encoding.Proto.Messages.{ResourceItems}
use asyncio_otlp_client.Encoding.Proto.Encoder.{Protobuf, encode_proto}
use asyncio_otlp_client.Encoding.Reader.Fields.{
  get, find, read_text, read_nat, read_bool, read_optional,
}
use asyncio_otlp_client.Encoding.Reader.Common.{Base64, read_scope_items, read_resource_items}
use asyncio_otlp_client.Encoding.Reader.Points.{
  read_number_point, read_histogram_point, read_exponential_point, read_summary_point,
}
use asyncio_otlp_client.Encoding.Reader.Metrics.{
  first_of, read_gauge, read_sum, read_histogram, read_exponential, read_summary, read_data,
  read_metric, read_metrics_request,
}
use asyncio_otlp_client.Encoding.Agree.Fields.{
  value_of, has_key, distinct, seen, read-at, read_text-seen, read_each, read_list-made,
}
use asyncio_otlp_client.Encoding.Agree.Envelope.{
  read_scope_items-omit_empty, read_resource_items-omit_empty,
}
use asyncio_otlp_client.Encoding.Agree.Points.{read_number_point-encode_number_point}
use asyncio_otlp_client.Encoding.Agree.Histograms.{
  read_histogram_point-encode_histogram_point, read_exponential_point-encode_exponential_point,
  read_summary_point-encode_summary_point,
}

module _ (R : Floats) (B : Base64) where
  -- What the five fields of the data are read as.
  read_data-omit_empty :
      (fs : Fields R.F) {gauge sum histogram exponential summary : Option (DataMessage R.F)}
      → distinct fs ≡ true
      → read_optional (read_gauge R B) (seen (value_of (text "gauge") fs)) ≡ gauge
      → read_optional (read_sum R B) (seen (value_of (text "sum") fs)) ≡ sum
      → read_optional (read_histogram R B) (seen (value_of (text "histogram") fs)) ≡ histogram
      → read_optional (read_exponential R B) (seen (value_of (text "exponentialHistogram") fs))
        ≡ exponential
      → read_optional (read_summary R B) (seen (value_of (text "summary") fs)) ≡ summary
      → read_data R B (omit_empty fs)
        ≡ first_of gauge (first_of sum (first_of histogram (first_of exponential summary)))
  unfolding read_data
  read_data-omit_empty fs d g s h e m = λ i.
      first_of (read-at (read_optional (read_gauge R B)) (text "gauge") fs d g i) (
        first_of (read-at (read_optional (read_sum R B)) (text "sum") fs d s i) (
          first_of (read-at (read_optional (read_histogram R B)) (text "histogram") fs d h i) (
            first_of
              (read-at (read_optional (read_exponential R B)) (text "exponentialHistogram") fs d e
                i)
              (read-at (read_optional (read_summary R B)) (text "summary") fs d m i))))

  -- the metric with the entry, read as a message with the body
  abbrev ReadsAs : Metric R.F → Str × Json R.F → DataMessage R.F → Type 0
  ReadsAs m field body =
      read_metric R B (omit_empty (metric_fields R B.encode m field))
      ≡ record { name = m.name; description = m.description; unit = m.unit; body = some body }

  read_metric-metric_fields :
      (m : Metric R.F) (field : Str × Json R.F) (body : DataMessage R.F)
      → distinct (metric_fields R B.encode m field) ≡ true
      → read_data R B (omit_empty (metric_fields R B.encode m field)) ≡ some body
      → ReadsAs m field body
  unfolding text str_eq value_of read_metric metric_fields
  read_metric-metric_fields m field body d e =
      let fs = metric_fields R B.encode m field in
      λ i. record {
        name = read-at read_text (text "name") fs d (read_text-seen R.F m.name) i;
        description =
            read-at read_text (text "description") fs d (read_text-seen R.F m.description) i;
        unit = read-at read_text (text "unit") fs d (read_text-seen R.F m.unit) i;
        body = e i;
      }

module _ (R : Floats) (B : Base64) (zeros : HasSignedZeros R) where
  metric_body-data_message :
      (m : Metric R.F) (body : MetricData R.F)
      → Agree (ReadsAs R B m) (metric_body R B.encode body) (data_message body)
  unfolding text str_eq value_of has_key distinct seen kept dict members get find read_nat read_bool
      read_optional first_of metric_fields metric_body data_message read_gauge read_sum
      read_histogram read_exponential read_summary
  metric_body-data_message m (gauge_data points) =
      Agree-bind (Agree-traverse (read_number_point-encode_number_point R B) points) (λ js ms h.
        Agree-ok (
          read_metric-metric_fields R B m (gauge_field js) _ refl (
            read_data-omit_empty R B (metric_fields R B.encode m (gauge_field js)) refl
              (ap (λ ps. some (gauge_message ps)) (read_list-made (read_number_point R B) js ∙ h))
              refl refl refl refl)))
  metric_body-data_message m (sum_data points t b) =
      Agree-bind (Agree-traverse (read_number_point-encode_number_point R B) points) (λ js ms h.
        Agree-ok (
          read_metric-metric_fields R B m (sum_field js t b) _ refl (
            read_data-omit_empty R B (metric_fields R B.encode m (sum_field js t b)) refl refl
              (ap (λ ps. some (sum_message ps (temporality_int t) b))
                (read_list-made (read_number_point R B) js ∙ h))
              refl refl refl)))
  metric_body-data_message m (histogram_data points t) =
      Agree-bind (Agree-traverse (read_histogram_point-encode_histogram_point R B) points)
        (λ js ms h. Agree-ok (
          read_metric-metric_fields R B m (histogram_field (text "histogram") js t) _ refl (
            read_data-omit_empty R B
              (metric_fields R B.encode m (histogram_field (text "histogram") js t)) refl refl refl
              (ap (λ ps. some (histogram_message ps (temporality_int t)))
                (read_list-made (read_histogram_point R B) js ∙ h))
              refl refl)))
  metric_body-data_message m (exponential_data points t) =
      Agree-bind (Agree-traverse (read_exponential_point-encode_exponential_point R B zeros) points)
        (λ js ms h. Agree-ok (
          read_metric-metric_fields R B m (histogram_field (text "exponentialHistogram") js t) _
            refl
            (read_data-omit_empty R B
              (metric_fields R B.encode m (histogram_field (text "exponentialHistogram") js t)) refl
              refl refl refl
              (ap (λ ps. some (exponential_message ps (temporality_int t)))
                (read_list-made (read_exponential_point R B) js ∙ h))
              refl)))
  metric_body-data_message m (summary_data points) = Agree-ok (
      read_metric-metric_fields R B m (summary_field (map (encode_summary_point R B.encode) points))
        _ refl
        (read_data-omit_empty R B
          (metric_fields R B.encode m
            (summary_field (map (encode_summary_point R B.encode) points)))
          refl refl refl refl refl
          (ap (λ ps. some (summary_message ps))
            (read_each (read_summary_point R B) (encode_summary_point R B.encode)
              summary_point_message (read_summary_point-encode_summary_point R B zeros) points))))

  read_metric-encode_metric :
      (m : Metric R.F)
      → Agree (λ doc n. read_metric R B doc ≡ n) (encode_metric R B.encode m) (metric_message m)
  unfolding encode_metric metric_message
  read_metric-encode_metric m =
      Agree-bind (metric_body-data_message m m.body) (λ field body h. Agree-ok h)

  read_scope_items-encode_scope_metrics :
      (sm : ScopeMetrics R.F)
      → Agree
          (λ doc m. read_scope_items B (text "metrics") (read_metric R B) doc ≡ m)
          (encode_scope_metrics R B.encode sm)
          (scope_metrics_message sm)
  unfolding text str_eq value_of has_key distinct scope_metrics_fields encode_scope_metrics
      scope_metrics_message
  read_scope_items-encode_scope_metrics sm =
      Agree-bind (Agree-traverse read_metric-encode_metric sm.metrics) (λ docs ms h. Agree-ok (
        read_scope_items-omit_empty B (text "metrics") (read_metric R B) sm.scope docs
          (scope_metrics_fields R B.encode sm docs) refl refl refl h))

  read_resource_items-encode_resource_metric :
      (rm : ResourceMetrics R.F)
      → Agree
          (λ doc m.
            read_resource_items B (text "scopeMetrics") (text "metrics") (read_metric R B) doc ≡ m)
          (encode_resource_metric R B.encode rm)
          (resource_metrics_message rm)
  unfolding text str_eq value_of has_key distinct resource_metrics_fields encode_resource_metric
      resource_metrics_message
  read_resource_items-encode_resource_metric rm =
      Agree-bind (Agree-traverse read_scope_items-encode_scope_metrics rm.scope_metrics)
        (λ docs ms h. Agree-ok (
          read_resource_items-omit_empty B (text "metrics") (read_metric R B) (text "scopeMetrics")
            rm.resource docs (resource_metrics_fields R B.encode rm docs) refl refl refl h))

  -- For metrics either the values refuse both encodings with a `TypeError`, or there are both a JSON
  -- document and the arguments of a protobuf message, and what a reader of OTLP/JSON takes from the one
  -- is the other; where base64 decodes what it encoded, and zero with a clear sign bit is one value.
  -- Whether the generated classes take the arguments is not said here.
  pub read_metrics_request-encode_resource_metrics :
      (rms : List (ResourceMetrics R.F))
      → Agree
          (λ doc m. read_metrics_request R B doc ≡ m)
          (encode_resource_metrics R B.encode rms)
          (metrics_request rms)
  unfolding text str_eq dict members get find read_metrics_request encode_resource_metrics
      metrics_request
  read_metrics_request-encode_resource_metrics rms =
      Agree-map _ (Agree-traverse read_resource_items-encode_resource_metric rms) (λ docs ms h.
        read_list-made
          (read_resource_items B (text "scopeMetrics") (text "metrics") (read_metric R B)) docs
        ∙ h)

  -- For metrics either the JSON encoder raises a `TypeError` and the protobuf encoder raises as well, or
  -- there is a document that the JSON encoder builds, and a message that the protobuf encoder constructs
  -- and serializes, with what that raises for a number out of the range of its field; and what a reader
  -- of OTLP/JSON takes from the document is that message. Base64 decodes what it encoded, and zero with a
  -- clear sign bit is one value.
  pub encode_proto-encode_resource_metrics :
      (Q : Protobuf (R.F)) (rms : List (ResourceMetrics R.F))
      → ((t : Str) × (e : Exc) × (encode_resource_metrics R B.encode rms ≡ raised (type_error t))
          × (encode_proto Q (of_metrics rms) ≡ raised e))
        ⊎ ((doc : Json R.F) × (m : List (ResourceItems R.F (MetricMessage R.F)))
            × (encode_resource_metrics R B.encode rms ≡ ok doc)
            × (encode_proto Q (of_metrics rms) ≡ Q.serialize_metrics m)
            × (read_metrics_request R B doc ≡ m))
  unfolding encode_proto
  encode_proto-encode_resource_metrics Q rms =
      elim (read_metrics_request-encode_resource_metrics rms) [
        | both_return doc m made built same ↦ inr (doc, m, made, rw built refl, same)
        | both_refuse t u refused other ↦ inl (t, type_error u, refused, rw other refl)
      ]
