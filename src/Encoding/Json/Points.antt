-- ===== src/Encoding/Json/Points.antt =====
-- The exemplars and the data points of src/otlp_client/encoding/json.py. A value that is a bool raises a
-- `TypeError`.
use asyncio_otlp_client.Base.{
  ◌||◌, not, List, [], ◌∷◌, Str, text, Result, ok, raised, ◌>>=◌, type_error, if◌then◌else◌,
  traverse,
}
use asyncio_otlp_client.Base.Int.{ℤ}
use asyncio_otlp_client.Base.Int as Int
use asyncio_otlp_client.Floats.{Floats}
use asyncio_otlp_client.Model.Common.{Bytes}
use asyncio_otlp_client.Model.Metrics.{
  Number, int_number, float_number, bool_number, Exemplar, NumberDataPoint, HistogramDataPoint,
  Buckets, ExponentialHistogramDataPoint, ValueAtQuantile, SummaryDataPoint,
}
use asyncio_otlp_client.Encoding.Json.Tree.{
  Json, null, number, Fields, dict, list, each, omit_empty, nonzero, nonzero_int,
}
use asyncio_otlp_client.Encoding.Json.Common.{
  u64, optional_u64, optional_hex, optional_number, encode_attributes,
}

abbrev pub exemplar_text : Str
exemplar_text = text "exemplar values must be int or float, not bool"

abbrev pub point_text : Str
point_text = text "metric data point values must be int or float, not bool"

-- the entry `**value_field`, after the test for a bool, which raises with the text
unfoldable pub value_field : {F : Type 0} → Str → Number F → Result (Str × Json F)
value_field message (int_number n) = ok (text "asInt", u64 n)
value_field message (float_number x) = ok (text "asDouble", number x)
value_field message (bool_number b) = raised (type_error message)

-- `u64(n) if n else None`
unfoldable pub nonzero_u64 : {F : Type 0} → ℤ → Json F
nonzero_u64 n = if Int.is_zero n then null else u64 n

unfoldable pub bucket_fields : {F : Type 0} → Buckets → Fields F
bucket_fields b =
    (text "offset", nonzero_int b.offset) ∷ (text "bucketCounts", each u64 b.bucket_counts) ∷ []

-- `_encode_buckets`
unfoldable pub encode_buckets : {F : Type 0} → Buckets → Json F
unfolding bucket_fields omit_empty
encode_buckets b = omit_empty (bucket_fields b)

module _ (R : Floats) (b64 : Bytes → Str) where
  -- `x if x or math.copysign(1.0, x) < 0 else None`
  unfoldable pub kept_number : R.F → Json R.F
  kept_number x = if not (R.is_zero x) || R.is_negative x then number x else null

  unfoldable pub exemplar_fields : Exemplar R.F → Str × Json R.F → Fields R.F
  exemplar_fields e value =
      (text "filteredAttributes", encode_attributes b64 e.filtered_attributes)
      ∷ (text "timeUnixNano", u64 e.time_unix_nano)
      ∷ value
      ∷ (text "spanId", optional_hex e.span_id)
      ∷ (text "traceId", optional_hex e.trace_id)
      ∷ []

  -- `_encode_exemplar`
  unfoldable pub encode_exemplar : Exemplar R.F → Result (Json R.F)
  unfolding value_field exemplar_fields omit_empty
  encode_exemplar e =
      value_field exemplar_text e.value >>= λ value. ok (omit_empty (exemplar_fields e value))

  unfoldable pub number_fields : NumberDataPoint R.F → List (Json R.F) → Str × Json R.F → Fields R.F
  number_fields p exemplars value =
      (text "attributes", encode_attributes b64 p.attributes)
      ∷ (text "startTimeUnixNano", optional_u64 p.start_time_unix_nano)
      ∷ (text "timeUnixNano", u64 p.time_unix_nano)
      ∷ (text "flags", nonzero p.flags)
      ∷ (text "exemplars", list exemplars)
      ∷ value
      ∷ []

  -- `_encode_number_point`
  unfoldable pub encode_number_point : NumberDataPoint R.F → Result (Json R.F)
  unfolding value_field encode_exemplar number_fields omit_empty traverse
  encode_number_point p = value_field point_text p.value >>= λ value.
      traverse encode_exemplar p.exemplars >>= λ exemplars.
      ok (omit_empty (number_fields p exemplars value))

  unfoldable pub histogram_fields : HistogramDataPoint R.F → List (Json R.F) → Fields R.F
  histogram_fields p exemplars =
      (text "attributes", encode_attributes b64 p.attributes)
      ∷ (text "startTimeUnixNano", optional_u64 p.start_time_unix_nano)
      ∷ (text "timeUnixNano", u64 p.time_unix_nano)
      ∷ (text "count", u64 p.count)
      ∷ (text "sum", optional_number p.sum)
      ∷ (text "bucketCounts", each u64 p.bucket_counts)
      ∷ (text "explicitBounds", each number p.explicit_bounds)
      ∷ (text "flags", nonzero p.flags)
      ∷ (text "exemplars", list exemplars)
      ∷ (text "min", optional_number p.min)
      ∷ (text "max", optional_number p.max)
      ∷ []

  -- `_encode_histogram_point`
  unfoldable pub encode_histogram_point : HistogramDataPoint R.F → Result (Json R.F)
  unfolding encode_exemplar histogram_fields omit_empty traverse
  encode_histogram_point p = traverse encode_exemplar p.exemplars >>= λ exemplars.
      ok (omit_empty (histogram_fields p exemplars))

  unfoldable pub exponential_fields :
      ExponentialHistogramDataPoint R.F → List (Json R.F) → Fields R.F
  unfolding encode_buckets kept_number nonzero_u64
  exponential_fields p exemplars =
      (text "attributes", encode_attributes b64 p.attributes)
      ∷ (text "startTimeUnixNano", optional_u64 p.start_time_unix_nano)
      ∷ (text "timeUnixNano", u64 p.time_unix_nano)
      ∷ (text "count", u64 p.count)
      ∷ (text "sum", optional_number p.sum)
      ∷ (text "scale", nonzero_int p.scale)
      ∷ (text "zeroCount", nonzero_u64 p.zero_count)
      ∷ (text "positive", encode_buckets p.positive)
      ∷ (text "negative", encode_buckets p.negative)
      ∷ (text "min", optional_number p.min)
      ∷ (text "max", optional_number p.max)
      ∷ (text "flags", nonzero p.flags)
      ∷ (text "exemplars", list exemplars)
      ∷ (text "zeroThreshold", kept_number p.zero_threshold)
      ∷ []

  -- `_encode_exponential_point`
  unfoldable pub encode_exponential_point : ExponentialHistogramDataPoint R.F → Result (Json R.F)
  unfolding encode_exemplar exponential_fields omit_empty traverse
  encode_exponential_point p = traverse encode_exemplar p.exemplars >>= λ exemplars.
      ok (omit_empty (exponential_fields p exemplars))

  -- the dict of one quantile
  unfoldable pub quantile_value : ValueAtQuantile R.F → Json R.F
  unfolding dict
  quantile_value q =
      dict ((text "quantile", number q.quantile) ∷ (text "value", number q.value) ∷ [])

  unfoldable pub summary_fields : SummaryDataPoint R.F → Fields R.F
  unfolding kept_number quantile_value
  summary_fields p =
      (text "attributes", encode_attributes b64 p.attributes)
      ∷ (text "startTimeUnixNano", optional_u64 p.start_time_unix_nano)
      ∷ (text "timeUnixNano", u64 p.time_unix_nano)
      ∷ (text "count", u64 p.count)
      ∷ (text "sum", kept_number p.sum)
      ∷ (text "quantileValues", each quantile_value p.quantile_values)
      ∷ (text "flags", nonzero p.flags)
      ∷ []

  -- `_encode_summary_point`
  unfoldable pub encode_summary_point : SummaryDataPoint R.F → Json R.F
  unfolding summary_fields omit_empty
  encode_summary_point p = omit_empty (summary_fields p)
