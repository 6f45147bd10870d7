-- ===== src/Encoding/Proto/Encoder.antt =====
-- `ProtobufEncoder` and `build_protobuf_encoder` of src/otlp_client/encoding/protobuf.py.
use asyncio_otlp_client.Base.{
  ◌&&◌, Option, none, some, List, Str, text, ◌++◌, Result, ok, raised, ◌>>=◌, not_implemented,
  config_error, is_empty, if◌then◌else◌,
}
use asyncio_otlp_client.Base.Int.{ℤ}
use asyncio_otlp_client.Base.Int as Int
use asyncio_otlp_client.Signals.{SignalKind, metrics, logs, traces, profiles, kind_name}
use asyncio_otlp_client.Outcomes.{PartialSuccess}
use asyncio_otlp_client.Client.Seams.{Encoder, Envelopes, of_metrics, of_logs, of_traces}
use asyncio_otlp_client.Model.Common.{Bytes}
use asyncio_otlp_client.Encoding.Proto.Messages.{LogMessage, SpanMessage, ResourceItems}
use asyncio_otlp_client.Encoding.Proto.Logs.{logs_request}
use asyncio_otlp_client.Encoding.Proto.Traces.{traces_request}
use asyncio_otlp_client.Encoding.Proto.Metrics.{MetricMessage, metrics_request}

-- `partial_success` of a response; `rejected` is its field for the signal
pub record PartialMessage : Type 0 where
  pub rejected : ℤ
  pub error_message : Str

-- The generated classes of opentelemetry-proto: construction with `SerializeToString`, which raises on a
-- value that a field cannot have, and `FromString`, with `none` for its `DecodeError`.
pub record Protobuf (F : Type 0) : Type 0 where
  pub serialize_metrics : List (ResourceItems F (MetricMessage F)) → Result Bytes
  pub serialize_logs : List (ResourceItems F (LogMessage F)) → Result Bytes
  pub serialize_traces : List (ResourceItems F (SpanMessage F)) → Result Bytes
  pub from_string : SignalKind → Bytes → Option PartialMessage

-- `_response_type`: the signal, if there is a response type for it
unfoldable pub response_type : SignalKind → Result SignalKind
response_type metrics = ok metrics
response_type logs = ok logs
response_type traces = ok traces
response_type profiles =
    raised (not_implemented (text "no response type for " ++ kind_name profiles))

-- what is reported of the block
unfoldable pub reported : Option PartialMessage → Option PartialSuccess
reported none = none
reported (some partial) =
    if Int.is_zero partial.rejected && is_empty partial.error_message
    then none
    else some (record { rejected = partial.rejected; message = partial.error_message })

module _ {F : Type 0} (P : Protobuf F) where
  -- `decode_response`
  unfoldable pub decode_proto_response : SignalKind → Bytes → Result (Option PartialSuccess)
  unfolding response_type reported
  decode_proto_response kind body =
      if is_empty body
      then ok none
      else response_type kind >>= λ type. ok (reported (P.from_string type body))

  -- `encode`
  unfoldable pub encode_proto : Envelopes F → Result Bytes
  unfolding metrics_request logs_request traces_request
  encode_proto (of_metrics data_) = metrics_request data_ >>= λ request. P.serialize_metrics request
  encode_proto (of_logs data_) = P.serialize_logs (logs_request data_)
  encode_proto (of_traces data_) = P.serialize_traces (traces_request data_)

  unfoldable pub protobuf_encoder : Encoder F
  unfolding encode_proto decode_proto_response
  protobuf_encoder = record {
    content_type = text "application/x-protobuf";
    encode = encode_proto;
    decode_response = decode_proto_response;
  }

-- `build_protobuf_encoder`, with whether the package can be imported
unfoldable pub build_protobuf_encoder : {F : Type 0} → Option (Protobuf F) → Result (Encoder F)
unfolding protobuf_encoder
build_protobuf_encoder none = raised (
    config_error (
      text
        "the protobuf encoder needs the optional extra: pip install 'asyncio-otlp-client[protobuf]'"))
build_protobuf_encoder (some P) = ok (protobuf_encoder P)
