-- ===== src/Encoding/Reader/Points.antt =====
-- Exemplars and data points. A floating-point field that is not set is `float(0)`.
use asyncio_otlp_client.Base.{Option, none, some, text}
use asyncio_otlp_client.Base.Int.{pos}
use asyncio_otlp_client.Base.Decimal.{read_int_text}
use asyncio_otlp_client.Floats.{Floats}
use asyncio_otlp_client.Encoding.Json.Tree.{Json, number, string}
use asyncio_otlp_client.Encoding.Proto.Points.{
  NumberMessage, as_int, as_double, ExemplarMessage, NumberPointMessage, HistogramPointMessage,
  BucketsMessage, ExponentialPointMessage, QuantileMessage, SummaryPointMessage,
}
use asyncio_otlp_client.Encoding.Reader.Fields.{
  get, read_u64, read_int, read_nat, read_hex, read_optional, read_list,
}
use asyncio_otlp_client.Encoding.Reader.Common.{Base64, read_attributes}

unfoldable pub read_double : {F : Type 0} → F → Json F → F
read_double default (number x) = x
read_double default _ = default

unfoldable pub read_number_at : {F : Type 0} → Json F → Json F → Option (NumberMessage F)
read_number_at (string s) _ = some (as_int (read_int_text s))
read_number_at _ (number x) = some (as_double x)
read_number_at _ _ = none

-- the value of a point or an exemplar
unfoldable pub read_number : {F : Type 0} → Json F → Option (NumberMessage F)
unfolding get read_number_at
read_number doc = read_number_at (get (text "asInt") doc) (get (text "asDouble") doc)

unfoldable pub read_buckets : {F : Type 0} → Json F → BucketsMessage
unfolding get
read_buckets doc = record {
  offset = read_int (get (text "offset") doc);
  bucket_counts = read_list read_u64 (get (text "bucketCounts") doc);
}

module _ (R : Floats) (B : Base64) where
  abbrev pub zero_double : R.F
  zero_double = R.of_int (pos 0)

  abbrev pub read_optional_double : Json R.F → Option R.F
  read_optional_double = read_optional (read_double zero_double)

  unfoldable pub read_exemplar : Json R.F → ExemplarMessage R.F
  unfolding get read_number
  read_exemplar doc = record {
    filtered_attributes = read_attributes B (get (text "filteredAttributes") doc);
    time_unix_nano = read_u64 (get (text "timeUnixNano") doc);
    value = read_number doc;
    span_id = read_hex (get (text "spanId") doc);
    trace_id = read_hex (get (text "traceId") doc);
  }

  unfoldable pub read_number_point : Json R.F → NumberPointMessage R.F
  unfolding get read_number read_exemplar
  read_number_point doc = record {
    attributes = read_attributes B (get (text "attributes") doc);
    time_unix_nano = read_u64 (get (text "timeUnixNano") doc);
    start_time_unix_nano = read_u64 (get (text "startTimeUnixNano") doc);
    flags = read_nat (get (text "flags") doc);
    exemplars = read_list read_exemplar (get (text "exemplars") doc);
    value = read_number doc;
  }

  unfoldable pub read_histogram_point : Json R.F → HistogramPointMessage R.F
  unfolding get read_exemplar
  read_histogram_point doc = record {
    attributes = read_attributes B (get (text "attributes") doc);
    time_unix_nano = read_u64 (get (text "timeUnixNano") doc);
    start_time_unix_nano = read_u64 (get (text "startTimeUnixNano") doc);
    count = read_u64 (get (text "count") doc);
    sum = read_optional_double (get (text "sum") doc);
    bucket_counts = read_list read_u64 (get (text "bucketCounts") doc);
    explicit_bounds = read_list (read_double zero_double) (get (text "explicitBounds") doc);
    flags = read_nat (get (text "flags") doc);
    min = read_optional_double (get (text "min") doc);
    max = read_optional_double (get (text "max") doc);
    exemplars = read_list read_exemplar (get (text "exemplars") doc);
  }

  unfoldable pub read_exponential_point : Json R.F → ExponentialPointMessage R.F
  unfolding get read_exemplar read_buckets
  read_exponential_point doc = record {
    attributes = read_attributes B (get (text "attributes") doc);
    time_unix_nano = read_u64 (get (text "timeUnixNano") doc);
    start_time_unix_nano = read_u64 (get (text "startTimeUnixNano") doc);
    count = read_u64 (get (text "count") doc);
    sum = read_optional_double (get (text "sum") doc);
    scale = read_int (get (text "scale") doc);
    zero_count = read_u64 (get (text "zeroCount") doc);
    min = read_optional_double (get (text "min") doc);
    max = read_optional_double (get (text "max") doc);
    flags = read_nat (get (text "flags") doc);
    exemplars = read_list read_exemplar (get (text "exemplars") doc);
    zero_threshold = read_double zero_double (get (text "zeroThreshold") doc);
    positive = read_optional read_buckets (get (text "positive") doc);
    negative = read_optional read_buckets (get (text "negative") doc);
  }

  unfoldable pub read_quantile : Json R.F → QuantileMessage R.F
  unfolding get
  read_quantile doc = record {
    quantile = read_double zero_double (get (text "quantile") doc);
    value = read_double zero_double (get (text "value") doc);
  }

  unfoldable pub read_summary_point : Json R.F → SummaryPointMessage R.F
  unfolding get read_quantile
  read_summary_point doc = record {
    attributes = read_attributes B (get (text "attributes") doc);
    time_unix_nano = read_u64 (get (text "timeUnixNano") doc);
    start_time_unix_nano = read_u64 (get (text "startTimeUnixNano") doc);
    count = read_u64 (get (text "count") doc);
    sum = read_double zero_double (get (text "sum") doc);
    quantile_values = read_list read_quantile (get (text "quantileValues") doc);
    flags = read_nat (get (text "flags") doc);
  }
