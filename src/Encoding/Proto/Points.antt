-- ===== src/Encoding/Proto/Points.antt =====
-- The exemplars and the data points of protobuf.py: `_exemplar`, `_number_point`, `_buckets` and the
-- points in `_metric`, with the messages that they make. A value that is a bool raises a `TypeError`.
-- The messages are arguments that the generated classes have not yet checked.
use asyncio_otlp_client.Base.{
  ℕ, Bool, ◌&&◌, Option, none, some, List, [], map, or_default, is_empty, Result, ok, raised, ◌>>=◌,
  type_error, if◌then◌else◌, Str, traverse,
}
use asyncio_otlp_client.Base.Int.{ℤ, pos}
use asyncio_otlp_client.Base.Int as Int
use asyncio_otlp_client.Model.Common.{Bytes}
use asyncio_otlp_client.Model.Metrics.{
  Number, int_number, float_number, bool_number, Exemplar, NumberDataPoint, HistogramDataPoint,
  Buckets, ExponentialHistogramDataPoint, ValueAtQuantile, SummaryDataPoint,
}
use asyncio_otlp_client.Encoding.Proto.Messages.{KeyValues}
use asyncio_otlp_client.Encoding.Proto.Common.{key_values}
use asyncio_otlp_client.Encoding.Json.Points.{exemplar_text, point_text}

-- the oneof `value`
pub data NumberMessage (F : Type 0) : Type 0 where
  as_int : ℤ → NumberMessage F
  as_double : F → NumberMessage F

pub record ExemplarMessage (F : Type 0) : Type 0 where
  pub filtered_attributes : KeyValues F
  pub time_unix_nano : ℤ
  pub value : Option (NumberMessage F)
  pub span_id : Bytes
  pub trace_id : Bytes

pub record NumberPointMessage (F : Type 0) : Type 0 where
  pub attributes : KeyValues F
  pub time_unix_nano : ℤ
  pub start_time_unix_nano : ℤ
  pub flags : ℕ
  pub exemplars : List (ExemplarMessage F)
  pub value : Option (NumberMessage F)

pub record HistogramPointMessage (F : Type 0) : Type 0 where
  pub attributes : KeyValues F
  pub time_unix_nano : ℤ
  pub start_time_unix_nano : ℤ
  pub count : ℤ
  pub sum : Option F
  pub bucket_counts : List ℤ
  pub explicit_bounds : List F
  pub flags : ℕ
  pub min : Option F
  pub max : Option F
  pub exemplars : List (ExemplarMessage F)

pub record BucketsMessage : Type 0 where
  pub offset : ℤ
  pub bucket_counts : List ℤ

pub record ExponentialPointMessage (F : Type 0) : Type 0 where
  pub attributes : KeyValues F
  pub time_unix_nano : ℤ
  pub start_time_unix_nano : ℤ
  pub count : ℤ
  pub sum : Option F
  pub scale : ℤ
  pub zero_count : ℤ
  pub min : Option F
  pub max : Option F
  pub flags : ℕ
  pub exemplars : List (ExemplarMessage F)
  pub zero_threshold : F
  pub positive : Option BucketsMessage
  pub negative : Option BucketsMessage

pub record QuantileMessage (F : Type 0) : Type 0 where
  pub quantile : F
  pub value : F

pub record SummaryPointMessage (F : Type 0) : Type 0 where
  pub attributes : KeyValues F
  pub time_unix_nano : ℤ
  pub start_time_unix_nano : ℤ
  pub count : ℤ
  pub sum : F
  pub quantile_values : List (QuantileMessage F)
  pub flags : ℕ

-- `_buckets_is_empty`
unfoldable pub buckets_is_empty : Buckets → Bool
buckets_is_empty b = Int.is_zero b.offset && is_empty b.bucket_counts

-- `_buckets`, which is only called, and set, if it carries something
unfoldable pub buckets_message : Buckets → Option BucketsMessage
unfolding buckets_is_empty
buckets_message b =
    if buckets_is_empty b
    then none
    else some (record { offset = b.offset; bucket_counts = b.bucket_counts })

module _ {F : Type 0} where
  -- the test for a bool, which raises with the text, and the argument `as_int` or `as_double`
  unfoldable pub number_message : Str → Number F → Result (NumberMessage F)
  number_message message (int_number n) = ok (as_int n)
  number_message message (float_number x) = ok (as_double x)
  number_message message (bool_number b) = raised (type_error message)

  -- `_exemplar`
  unfoldable pub exemplar_message : Exemplar F → Result (ExemplarMessage F)
  unfolding number_message
  exemplar_message e = number_message exemplar_text e.value >>= λ value. ok (record {
    filtered_attributes = key_values e.filtered_attributes;
    time_unix_nano = e.time_unix_nano;
    value = some value;
    span_id = or_default [] e.span_id;
    trace_id = or_default [] e.trace_id;
  })

  -- `_number_point`, where the exemplars come before the test of the value
  unfoldable pub number_point_message : NumberDataPoint F → Result (NumberPointMessage F)
  unfolding number_message exemplar_message traverse
  number_point_message p = traverse exemplar_message p.exemplars >>= λ exemplars.
      number_message point_text p.value >>= λ value. ok (record {
        attributes = key_values p.attributes;
        time_unix_nano = p.time_unix_nano;
        start_time_unix_nano = or_default (pos 0) p.start_time_unix_nano;
        flags = p.flags;
        exemplars = exemplars;
        value = some value;
      })

  unfoldable pub histogram_point_message : HistogramDataPoint F → Result (HistogramPointMessage F)
  unfolding exemplar_message traverse
  histogram_point_message p = traverse exemplar_message p.exemplars >>= λ exemplars. ok (record {
    attributes = key_values p.attributes;
    time_unix_nano = p.time_unix_nano;
    start_time_unix_nano = or_default (pos 0) p.start_time_unix_nano;
    count = p.count;
    sum = p.sum;
    bucket_counts = p.bucket_counts;
    explicit_bounds = p.explicit_bounds;
    flags = p.flags;
    min = p.min;
    max = p.max;
    exemplars = exemplars;
  })

  unfoldable pub exponential_point_message :
      ExponentialHistogramDataPoint F → Result (ExponentialPointMessage F)
  unfolding exemplar_message buckets_message traverse
  exponential_point_message p = traverse exemplar_message p.exemplars >>= λ exemplars. ok (record {
    attributes = key_values p.attributes;
    time_unix_nano = p.time_unix_nano;
    start_time_unix_nano = or_default (pos 0) p.start_time_unix_nano;
    count = p.count;
    sum = p.sum;
    scale = p.scale;
    zero_count = p.zero_count;
    min = p.min;
    max = p.max;
    flags = p.flags;
    exemplars = exemplars;
    zero_threshold = p.zero_threshold;
    positive = buckets_message p.positive;
    negative = buckets_message p.negative;
  })

  unfoldable pub quantile_message : ValueAtQuantile F → QuantileMessage F
  quantile_message q = record { quantile = q.quantile; value = q.value }

  unfoldable pub summary_point_message : SummaryDataPoint F → SummaryPointMessage F
  unfolding quantile_message
  summary_point_message p = record {
    attributes = key_values p.attributes;
    time_unix_nano = p.time_unix_nano;
    start_time_unix_nano = or_default (pos 0) p.start_time_unix_nano;
    count = p.count;
    sum = p.sum;
    quantile_values = map quantile_message p.quantile_values;
    flags = p.flags;
  }
