-- ===== src/Encoding/Agree/Histograms.antt =====
-- The JSON and the protobuf encoding of histograms and summaries.
use asyncio_otlp_client.Base.{◌≡◌, refl, ◌∙◌, text, str_eq, Agree, Agree-ok, Agree-bind}
use asyncio_otlp_client.Floats.{Floats, HasSignedZeros}
use asyncio_otlp_client.Model.Metrics.{
  HistogramDataPoint, ExponentialHistogramDataPoint, ValueAtQuantile, SummaryDataPoint,
}
use asyncio_otlp_client.Encoding.Json.Tree.{number, dict, members}
use asyncio_otlp_client.Encoding.Json.Common.{u64}
use asyncio_otlp_client.Encoding.Json.Points.{
  histogram_fields, encode_histogram_point, exponential_fields, encode_exponential_point,
  quantile_value, summary_fields, encode_summary_point,
}
use asyncio_otlp_client.Encoding.Proto.Points.{
  histogram_point_message, exponential_point_message, quantile_message, summary_point_message,
}
use asyncio_otlp_client.Encoding.Reader.Fields.{
  get, find, read_u64, read_int, read_nat, read_optional, read_list,
}
use asyncio_otlp_client.Encoding.Reader.Common.{Base64, read_attributes}
use asyncio_otlp_client.Encoding.Reader.Points.{
  read_double, read_buckets, zero_double, read_optional_double, read_exemplar, read_histogram_point,
  read_exponential_point, read_quantile, read_summary_point,
}
use asyncio_otlp_client.Encoding.Agree.Fields.{
  value_of, has_key, distinct, read-at, read_u64-seen, read_u64-u64, read_u64-seen_optional,
  read_nat-seen, read_int-seen, read_list-seen, read_list-seen_back, read_list-seen_made,
}
use asyncio_otlp_client.Encoding.Agree.Common.{read_attributes-seen}
use asyncio_otlp_client.Encoding.Agree.Values.{
  read_u64-seen_nonzero, read_optional_number-seen, read_double-number, read_buckets-seen,
  read_double-seen,
}
use asyncio_otlp_client.Encoding.Agree.Points.{exemplars-Agree}

module _ (R : Floats) (B : Base64) where
  pub read_histogram_point-encode_histogram_point :
      (p : HistogramDataPoint R.F)
      → Agree
          (λ doc m. read_histogram_point R B doc ≡ m)
          (encode_histogram_point R B.encode p)
          (histogram_point_message p)
  unfolding text str_eq value_of has_key distinct read_histogram_point encode_histogram_point
      histogram_fields histogram_point_message
  read_histogram_point-encode_histogram_point p =
      Agree-bind (exemplars-Agree R B p.exemplars) (λ js ms h.
        let fs = histogram_fields R B.encode p js in
        Agree-ok (λ i. record {
          attributes =
              read-at (read_attributes B) (text "attributes") fs refl
                (read_attributes-seen B p.attributes) i;
          time_unix_nano =
              read-at read_u64 (text "timeUnixNano") fs refl (read_u64-seen R.F p.time_unix_nano) i;
          start_time_unix_nano =
              read-at read_u64 (text "startTimeUnixNano") fs refl
                (read_u64-seen_optional R.F p.start_time_unix_nano) i;
          count = read-at read_u64 (text "count") fs refl (read_u64-seen R.F p.count) i;
          sum =
              read-at (read_optional_double R B) (text "sum") fs refl
                (read_optional_number-seen R.F (zero_double R B) p.sum) i;
          bucket_counts =
              read-at (read_list read_u64) (text "bucketCounts") fs refl
                (read_list-seen_back read_u64 u64 (read_u64-u64 R.F) p.bucket_counts) i;
          explicit_bounds =
              read-at (read_list (read_double (zero_double R B))) (text "explicitBounds") fs refl
                (read_list-seen_back (read_double (zero_double R B)) number
                  (read_double-number R.F (zero_double R B)) p.explicit_bounds)
                i;
          flags = read-at read_nat (text "flags") fs refl (read_nat-seen R.F p.flags) i;
          min =
              read-at (read_optional_double R B) (text "min") fs refl
                (read_optional_number-seen R.F (zero_double R B) p.min) i;
          max =
              read-at (read_optional_double R B) (text "max") fs refl
                (read_optional_number-seen R.F (zero_double R B) p.max) i;
          exemplars =
              read-at (read_list (read_exemplar R B)) (text "exemplars") fs refl
                (read_list-seen_made (read_exemplar R B) js ∙ h) i;
        }))

  read_quantile-quantile_value :
      (q : ValueAtQuantile R.F)
      → read_quantile R B (quantile_value R B.encode q) ≡ quantile_message q
  unfolding text str_eq dict members get find read_double read_quantile quantile_value
      quantile_message
  read_quantile-quantile_value q = refl

module _ (R : Floats) (B : Base64) (zeros : HasSignedZeros R) where
  pub read_exponential_point-encode_exponential_point :
      (p : ExponentialHistogramDataPoint R.F)
      → Agree
          (λ doc m. read_exponential_point R B doc ≡ m)
          (encode_exponential_point R B.encode p)
          (exponential_point_message p)
  unfolding text str_eq value_of has_key distinct read_exponential_point encode_exponential_point
      exponential_fields exponential_point_message
  read_exponential_point-encode_exponential_point p =
      Agree-bind (exemplars-Agree R B p.exemplars) (λ js ms h.
        let fs = exponential_fields R B.encode p js in
        Agree-ok (λ i. record {
          attributes =
              read-at (read_attributes B) (text "attributes") fs refl
                (read_attributes-seen B p.attributes) i;
          time_unix_nano =
              read-at read_u64 (text "timeUnixNano") fs refl (read_u64-seen R.F p.time_unix_nano) i;
          start_time_unix_nano =
              read-at read_u64 (text "startTimeUnixNano") fs refl
                (read_u64-seen_optional R.F p.start_time_unix_nano) i;
          count = read-at read_u64 (text "count") fs refl (read_u64-seen R.F p.count) i;
          sum =
              read-at (read_optional_double R B) (text "sum") fs refl
                (read_optional_number-seen R.F (zero_double R B) p.sum) i;
          scale = read-at read_int (text "scale") fs refl (read_int-seen R.F p.scale) i;
          zero_count =
              read-at read_u64 (text "zeroCount") fs refl (read_u64-seen_nonzero R.F p.zero_count)
                i;
          min =
              read-at (read_optional_double R B) (text "min") fs refl
                (read_optional_number-seen R.F (zero_double R B) p.min) i;
          max =
              read-at (read_optional_double R B) (text "max") fs refl
                (read_optional_number-seen R.F (zero_double R B) p.max) i;
          flags = read-at read_nat (text "flags") fs refl (read_nat-seen R.F p.flags) i;
          exemplars =
              read-at (read_list (read_exemplar R B)) (text "exemplars") fs refl
                (read_list-seen_made (read_exemplar R B) js ∙ h) i;
          zero_threshold =
              read-at (read_double (zero_double R B)) (text "zeroThreshold") fs refl
                (read_double-seen R B zeros p.zero_threshold) i;
          positive =
              read-at (read_optional read_buckets) (text "positive") fs refl
                (read_buckets-seen R.F p.positive) i;
          negative =
              read-at (read_optional read_buckets) (text "negative") fs refl
                (read_buckets-seen R.F p.negative) i;
        }))

  pub read_summary_point-encode_summary_point :
      (p : SummaryDataPoint R.F)
      → read_summary_point R B (encode_summary_point R B.encode p) ≡ summary_point_message p
  unfolding text str_eq value_of has_key distinct read_summary_point encode_summary_point
      summary_fields summary_point_message
  read_summary_point-encode_summary_point p =
      let fs = summary_fields R B.encode p in
      λ i. record {
        attributes =
            read-at (read_attributes B) (text "attributes") fs refl
              (read_attributes-seen B p.attributes) i;
        time_unix_nano =
            read-at read_u64 (text "timeUnixNano") fs refl (read_u64-seen R.F p.time_unix_nano) i;
        start_time_unix_nano =
            read-at read_u64 (text "startTimeUnixNano") fs refl
              (read_u64-seen_optional R.F p.start_time_unix_nano) i;
        count = read-at read_u64 (text "count") fs refl (read_u64-seen R.F p.count) i;
        sum =
            read-at (read_double (zero_double R B)) (text "sum") fs refl
              (read_double-seen R B zeros p.sum) i;
        quantile_values =
            read-at (read_list (read_quantile R B)) (text "quantileValues") fs refl
              (read_list-seen (read_quantile R B) (quantile_value R B.encode) quantile_message
                (read_quantile-quantile_value R B) p.quantile_values)
              i;
        flags = read-at read_nat (text "flags") fs refl (read_nat-seen R.F p.flags) i;
      }
