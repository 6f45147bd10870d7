-- ===== src/Encoding/Reader/Metrics.antt =====
-- Metrics.
use asyncio_otlp_client.Base.{Option, none, some, List, text}
use asyncio_otlp_client.Floats.{Floats}
use asyncio_otlp_client.Encoding.Json.Tree.{Json}
use asyncio_otlp_client.Encoding.Proto.Messages.{ResourceItems}
use asyncio_otlp_client.Encoding.Proto.Metrics.{
  DataMessage, gauge_message, sum_message, histogram_message, exponential_message, summary_message,
  MetricMessage,
}
use asyncio_otlp_client.Encoding.Reader.Fields.{
  get, read_text, read_nat, read_bool, read_optional, read_list,
}
use asyncio_otlp_client.Encoding.Reader.Common.{Base64, read_resource_items}
use asyncio_otlp_client.Encoding.Reader.Points.{
  read_number_point, read_histogram_point, read_exponential_point, read_summary_point,
}

-- the first that is set
unfoldable pub first_of : {M : Type 0} → Option M → Option M → Option M
first_of none o = o
first_of (some m) o = some m

module _ (R : Floats) (B : Base64) where
  unfoldable pub read_gauge : Json R.F → DataMessage R.F
  unfolding get read_number_point
  read_gauge doc = gauge_message (read_list (read_number_point R B) (get (text "dataPoints") doc))

  unfoldable pub read_sum : Json R.F → DataMessage R.F
  unfolding get read_number_point
  read_sum doc =
      sum_message (read_list (read_number_point R B) (get (text "dataPoints") doc))
        (read_nat (get (text "aggregationTemporality") doc))
        (read_bool (get (text "isMonotonic") doc))

  unfoldable pub read_histogram : Json R.F → DataMessage R.F
  unfolding get read_histogram_point
  read_histogram doc =
      histogram_message (read_list (read_histogram_point R B) (get (text "dataPoints") doc))
        (read_nat (get (text "aggregationTemporality") doc))

  unfoldable pub read_exponential : Json R.F → DataMessage R.F
  unfolding get read_exponential_point
  read_exponential doc =
      exponential_message (read_list (read_exponential_point R B) (get (text "dataPoints") doc))
        (read_nat (get (text "aggregationTemporality") doc))

  unfoldable pub read_summary : Json R.F → DataMessage R.F
  unfolding get read_summary_point
  read_summary doc =
      summary_message (read_list (read_summary_point R B) (get (text "dataPoints") doc))

  unfoldable pub read_data : Json R.F → Option (DataMessage R.F)
  unfolding get first_of read_gauge read_sum read_histogram read_exponential read_summary
  read_data doc = first_of (read_optional read_gauge (get (text "gauge") doc)) (
      first_of (read_optional read_sum (get (text "sum") doc)) (
        first_of (read_optional read_histogram (get (text "histogram") doc)) (
          first_of (read_optional read_exponential (get (text "exponentialHistogram") doc))
            (read_optional read_summary (get (text "summary") doc)))))

  unfoldable pub read_metric : Json R.F → MetricMessage R.F
  unfolding get read_data
  read_metric doc = record {
    name = read_text (get (text "name") doc);
    description = read_text (get (text "description") doc);
    unit = read_text (get (text "unit") doc);
    body = read_data doc;
  }

  unfoldable pub read_metrics_request : Json R.F → List (ResourceItems R.F (MetricMessage R.F))
  unfolding read_metric read_resource_items get read_list
  read_metrics_request doc =
      read_list (read_resource_items B (text "scopeMetrics") (text "metrics") read_metric)
        (get (text "resourceMetrics") doc)
