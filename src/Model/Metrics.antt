-- ===== src/Model/Metrics.antt =====
-- src/otlp_client/model/metrics.py: the metrics data model.
use asyncio_otlp_client.Base.{ℕ, Bool, Option, List, Str}
use asyncio_otlp_client.Base.Int.{ℤ}
use asyncio_otlp_client.Model.Common.{Attributes, Bytes, InstrumentationScope, Resource}

pub data AggregationTemporality : Type 0 where
  unspecified delta cumulative : AggregationTemporality

-- `int(temporality)`
unfoldable pub temporality_int : AggregationTemporality → ℕ
temporality_int unspecified = 0
temporality_int delta = 1
temporality_int cumulative = 2

-- A measured value. `bool` is a subclass of `int`, and the encoders refuse it.
pub data Number (F : Type 0) : Type 0 where
  int_number : ℤ → Number F
  float_number : F → Number F
  bool_number : Bool → Number F

pub record Exemplar (F : Type 0) : Type 0 where
  pub filtered_attributes : Attributes F
  pub time_unix_nano : ℤ
  pub value : Number F
  pub span_id : Option Bytes
  pub trace_id : Option Bytes

pub record NumberDataPoint (F : Type 0) : Type 0 where
  pub time_unix_nano : ℤ
  pub value : Number F
  pub attributes : Attributes F
  pub start_time_unix_nano : Option ℤ
  pub exemplars : List (Exemplar F)
  pub flags : ℕ

pub record HistogramDataPoint (F : Type 0) : Type 0 where
  pub time_unix_nano : ℤ
  pub count : ℤ
  pub bucket_counts : List ℤ
  pub explicit_bounds : List F
  pub sum : Option F
  pub attributes : Attributes F
  pub start_time_unix_nano : Option ℤ
  pub exemplars : List (Exemplar F)
  pub flags : ℕ
  pub min : Option F
  pub max : Option F

-- One side of an exponential histogram.
pub record Buckets : Type 0 where
  pub offset : ℤ
  pub bucket_counts : List ℤ

pub record ExponentialHistogramDataPoint (F : Type 0) : Type 0 where
  pub time_unix_nano : ℤ
  pub count : ℤ
  pub scale : ℤ
  pub zero_count : ℤ
  pub positive : Buckets
  pub negative : Buckets
  pub sum : Option F
  pub min : Option F
  pub max : Option F
  pub attributes : Attributes F
  pub start_time_unix_nano : Option ℤ
  pub flags : ℕ
  pub exemplars : List (Exemplar F)
  pub zero_threshold : F

pub record ValueAtQuantile (F : Type 0) : Type 0 where
  pub quantile : F
  pub value : F

pub record SummaryDataPoint (F : Type 0) : Type 0 where
  pub time_unix_nano : ℤ
  pub count : ℤ
  pub sum : F
  pub quantile_values : List (ValueAtQuantile F)
  pub attributes : Attributes F
  pub start_time_unix_nano : Option ℤ
  pub flags : ℕ

-- The classes `Gauge`, `Sum`, `Histogram`, `ExponentialHistogram` and `Summary`, with their fields
-- in order, as the union `MetricData`.
pub data MetricData (F : Type 0) : Type 0 where
  gauge_data : (data_points : List (NumberDataPoint F)) → MetricData F
  sum_data :
      (data_points : List (NumberDataPoint F)) (aggregation_temporality : AggregationTemporality)
      (is_monotonic : Bool)
      → MetricData F
  histogram_data :
      (data_points : List (HistogramDataPoint F)) (aggregation_temporality : AggregationTemporality)
      → MetricData F
  exponential_data :
      (data_points : List (ExponentialHistogramDataPoint F))
      (aggregation_temporality : AggregationTemporality)
      → MetricData F
  summary_data : (data_points : List (SummaryDataPoint F)) → MetricData F

pub record Metric (F : Type 0) : Type 0 where
  pub name : Str
  pub body : MetricData F
  pub description : Str
  pub unit : Str

pub record ScopeMetrics (F : Type 0) : Type 0 where
  pub scope : InstrumentationScope F
  pub metrics : List (Metric F)

pub record ResourceMetrics (F : Type 0) : Type 0 where
  pub resource : Resource F
  pub scope_metrics : List (ScopeMetrics F)
