-- ===== src/Tests/Encoding.antt =====
-- What the encoders write for small samples. Hexadecimal digits stand in for base64.
use asyncio_otlp_client.Base.{
  ℕ, ◌≡◌, true, none, some, List, [], ◌∷◌, text, arith, Str, Exc, ok, raised, type_error, ◌⊎◌,
  length,
}
use asyncio_otlp_client.Base.Int.{pos, negsuc}
use asyncio_otlp_client.Floats.{HasSignedZeros}
use asyncio_otlp_client.Model.Common.{
  str_value, bool_value, int_value, float_value, bytes_value, seq_value, map_value, nil, cons, end,
  attr, Resource, InstrumentationScope, Attributes,
}
use asyncio_otlp_client.Model.Logs.{ResourceLogs, warn}
use asyncio_otlp_client.Model.Traces.{ResourceSpans, server, error_status}
use asyncio_otlp_client.Model.Metrics.{
  ResourceMetrics, MetricData, sum_data, delta, int_number, float_number, Exemplar,
}
use asyncio_otlp_client.Encoding.Json.Common.{hex_id}
use asyncio_otlp_client.Encoding.Json.Logs.{encode_resource_logs}
use asyncio_otlp_client.Encoding.Json.Traces.{encode_resource_spans}
use asyncio_otlp_client.Encoding.Json.Metrics.{encode_resource_metrics}
use asyncio_otlp_client.Encoding.Proto.Logs.{logs_request}
use asyncio_otlp_client.Encoding.Proto.Traces.{traces_request}
use asyncio_otlp_client.Encoding.Proto.Metrics.{MetricMessage}
use asyncio_otlp_client.Encoding.Proto.Messages.{ResourceItems}
use asyncio_otlp_client.Encoding.Proto.Encoder.{Protobuf, encode_proto}
use asyncio_otlp_client.Encoding.Json.Tree.{Json}
use asyncio_otlp_client.Client.Seams.{of_metrics}
use asyncio_otlp_client.Encoding.Reader.Fields.{read_hex_text}
use asyncio_otlp_client.Encoding.Reader.Common.{Base64}
use asyncio_otlp_client.Encoding.Reader.Logs.{read_logs_request}
use asyncio_otlp_client.Encoding.Reader.Traces.{read_traces_request}
use asyncio_otlp_client.Encoding.Reader.Metrics.{read_metrics_request}
use asyncio_otlp_client.Encoding.Agree.Fields.{read_hex_text-hex_id}
use asyncio_otlp_client.Encoding.Agree.Logs.{read_logs_request-encode_resource_logs}
use asyncio_otlp_client.Encoding.Agree.Traces.{read_traces_request-encode_resource_spans}
use asyncio_otlp_client.Encoding.Agree.Metrics.{encode_proto-encode_resource_metrics}
use asyncio_otlp_client.Tests.Samples.{ticks}

abbrev hexadecimal : Base64
hexadecimal = record {
  encode = hex_id;
  decode = read_hex_text;
  decode-encode = read_hex_text-hex_id;
}

ticks-HasSignedZeros : HasSignedZeros ticks
ticks-HasSignedZeros = record { positive_zero = λ x z s. ground arith }

abbrev host : Attributes ℕ
host = attr (text "host") (str_value (text "a")) (
    attr (text "up") (bool_value true) (
      attr (text "tags")
        (seq_value (cons (int_value (negsuc 4)) (cons (bytes_value (255 ∷ [])) nil)))
        (attr (text "deep") (map_value (attr (text "x") (float_value 0) end)) end)))

abbrev resource : Resource ℕ
resource = record { attributes = host; dropped_attributes_count = pos 0 }

abbrev nothing : Resource ℕ
nothing = record { attributes = end; dropped_attributes_count = pos 0 }

abbrev scope : InstrumentationScope ℕ
scope = record { name = text "lib"; version = none; attributes = end }

abbrev sample_logs : List (ResourceLogs ℕ)
sample_logs =
    record {
      resource = resource;
      scope_logs =
          record {
            scope = scope;
            log_records =
                record {
                  time_unix_nano = pos 7;
                  body = map_value end;
                  observed_time_unix_nano = pos 0;
                  severity_number = warn;
                  severity_text = text "WARN";
                  attributes = end;
                  trace_id = some (10 ∷ 171 ∷ []);
                  span_id = none;
                  event_name = [];
                  flags = 1;
                }
                ∷ [];
          }
          ∷ [];
    }
    ∷ record { resource = nothing; scope_logs = [] }
    ∷ []

read_logs_request-encode_resource_logs_example :
    read_logs_request hexadecimal (encode_resource_logs hex_id sample_logs)
    ≡ logs_request sample_logs
read_logs_request-encode_resource_logs_example =
    read_logs_request-encode_resource_logs hexadecimal sample_logs

abbrev sample_spans : List (ResourceSpans ℕ)
sample_spans =
    record {
      resource = resource;
      scope_spans =
          record {
            scope = scope;
            spans =
                record {
                  trace_id = 1 ∷ 2 ∷ [];
                  span_id = 3 ∷ [];
                  name = text "get";
                  start_time_unix_nano = pos 5;
                  end_time_unix_nano = pos 9;
                  kind = server;
                  parent_span_id = some [];
                  trace_state = [];
                  flags = 0;
                  attributes = host;
                  events =
                      record { time_unix_nano = pos 6; name = text "e"; attributes = end } ∷ [];
                  links = [];
                  status = some (record { code = error_status; message = [] });
                }
                ∷ [];
          }
          ∷ [];
    }
    ∷ []

read_traces_request-encode_resource_spans_example :
    read_traces_request hexadecimal (encode_resource_spans hex_id sample_spans)
    ≡ traces_request sample_spans
read_traces_request-encode_resource_spans_example =
    read_traces_request-encode_resource_spans hexadecimal sample_spans

-- generated classes that take every argument
abbrev classes : Protobuf ℕ
classes = record {
  serialize_metrics = λ m. ok (length m ∷ []);
  serialize_logs = λ m. ok [];
  serialize_traces = λ m. ok [];
  from_string = λ kind body. none;
}

abbrev exemplar : Exemplar ℕ
exemplar = record {
  filtered_attributes = host;
  time_unix_nano = pos 3;
  value = float_number 0;
  span_id = some (1 ∷ []);
  trace_id = none;
}

abbrev metrics_of : MetricData ℕ → List (ResourceMetrics ℕ)
metrics_of body =
    record {
      resource = resource;
      scope_metrics =
          record {
            scope = scope;
            metrics =
                record { name = text "m"; body = body; description = []; unit = text "s" } ∷ [];
          }
          ∷ [];
    }
    ∷ []

abbrev sample_sum : MetricData ℕ
sample_sum =
    sum_data
      (record {
        time_unix_nano = pos 8;
        value = int_number (negsuc 0);
        attributes = end;
        start_time_unix_nano = some (pos 2);
        exemplars = exemplar ∷ [];
        flags = 1;
      }
        ∷ [])
      delta true

encode_proto-encode_resource_metrics_example :
    ((t : Str) × (e : Exc) × (encode_resource_metrics ticks hex_id (metrics_of sample_sum)
        ≡ raised (type_error t))
      × (encode_proto classes (of_metrics (metrics_of sample_sum)) ≡ raised e))
    ⊎ ((doc : Json ℕ) × (m : List (ResourceItems ℕ (MetricMessage ℕ))) × (encode_resource_metrics
            ticks hex_id
            (metrics_of sample_sum)
          ≡ ok doc)
        × (encode_proto classes (of_metrics (metrics_of sample_sum)) ≡ classes.serialize_metrics m)
        × (read_metrics_request ticks hexadecimal doc ≡ m))
encode_proto-encode_resource_metrics_example =
    encode_proto-encode_resource_metrics ticks hexadecimal ticks-HasSignedZeros classes
      (metrics_of sample_sum)
