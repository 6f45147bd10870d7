-- ===== src/Delivery/Payload.antt =====
-- The payload of an encoder, as a collector reads it.
use asyncio_otlp_client.Base.{
  ◌≡◌, refl, ap, sym, subst, ◌∙◌, Option, none, some, List, Str, text, str_eq, [], Result, ok,
  ◌>>=◌, >>=-eq-ok, both_return, both_refuse,
}
use asyncio_otlp_client.Floats.{Floats, HasSignedZeros}
use asyncio_otlp_client.Signals.{SignalKind, metrics, logs, traces}
use asyncio_otlp_client.Config.Defs.{OtlpProtocol, http_json, http_protobuf, grpc}
use asyncio_otlp_client.Model.Common.{Bytes}
use asyncio_otlp_client.Model.Metrics.{ResourceMetrics}
use asyncio_otlp_client.Client.Seams.{Encoder, Envelopes, of_metrics, of_logs, of_traces, kind_of}
use asyncio_otlp_client.Client.Create.{build_encoder, name_extra}
use asyncio_otlp_client.Encoding.Json.Tree.{Json}
use asyncio_otlp_client.Encoding.Json.Metrics.{encode_resource_metrics}
use asyncio_otlp_client.Encoding.Json.Logs.{encode_resource_logs}
use asyncio_otlp_client.Encoding.Json.Traces.{encode_resource_spans}
use asyncio_otlp_client.Encoding.Json.Encoder.{
  Python, encode_json, json_encoder, decode_json_response,
}
use asyncio_otlp_client.Encoding.Proto.Messages.{LogMessage, SpanMessage, ResourceItems}
use asyncio_otlp_client.Encoding.Proto.Metrics.{MetricMessage, metrics_request}
use asyncio_otlp_client.Encoding.Proto.Encoder.{
  Protobuf, encode_proto, protobuf_encoder, build_protobuf_encoder, decode_proto_response,
}
use asyncio_otlp_client.Encoding.Reader.Common.{Base64}
use asyncio_otlp_client.Encoding.Reader.Metrics.{read_metrics_request}
use asyncio_otlp_client.Encoding.Agree.Metrics.{read_metrics_request-encode_resource_metrics}
use asyncio_otlp_client.Encoding.Agree.Logs.{read_logs_request-encode_resource_logs}
use asyncio_otlp_client.Encoding.Agree.Traces.{read_traces_request-encode_resource_spans}
use asyncio_otlp_client.Delivery.Collector.{
  Message, metrics_message, logs_message, traces_message, message_of, Parsers, read_document,
  read_json, read_body,
}

-- The collector's libraries read what the client's libraries write.
pub record IsStandard (R : Floats) (B : Base64) (P : Python (R.F)) (Q : Protobuf (R.F))
    (compress : Bytes → Bytes) (C : Parsers (R.F)) : Type 0 where
  pub b64 : P.b64 ≡ B.encode
  pub parse_json : (doc : Json R.F) (b : Bytes) → P.dumps doc ≡ ok b → C.parse_json b ≡ some doc
  pub parse_metrics :
      (m : List (ResourceItems R.F (MetricMessage R.F))) (b : Bytes)
      → Q.serialize_metrics m ≡ ok b
      → C.parse_message metrics b ≡ some (metrics_message m)
  pub parse_logs :
      (m : List (ResourceItems R.F (LogMessage R.F))) (b : Bytes)
      → Q.serialize_logs m ≡ ok b
      → C.parse_message logs b ≡ some (logs_message m)
  pub parse_traces :
      (m : List (ResourceItems R.F (SpanMessage R.F))) (b : Bytes)
      → Q.serialize_traces m ≡ ok b
      → C.parse_message traces b ≡ some (traces_message m)
  pub gunzip : (b : Bytes) → C.decompress (compress b) ≡ b

pub ok-injective : {A : Type 0} {x y : A} → ◌≡◌ {A = Result A} (ok x) (ok y) → x ≡ y
ok-injective e = cc

module _ (R : Floats) (B : Base64) (zeros : HasSignedZeros R) (P : Python (R.F))
    (Q : Protobuf (R.F)) (compress : Bytes → Bytes) (C : Parsers (R.F))
    (std : IsStandard R B P Q compress C) where
  -- What is read of a payload is the message of its envelopes.
  abbrev pub Means : Envelopes R.F → Option Str → Bytes → Type 0
  Means envelopes type payload =
      (m : Message R.F) × (message_of envelopes ≡ ok m)
      × (read_body R B C (kind_of envelopes) type payload ≡ some m)

  metrics_document :
      (doc : Json R.F) (data_ : List (ResourceMetrics R.F))
      → encode_resource_metrics R B.encode data_ ≡ ok doc
      → (m : List (ResourceItems R.F (MetricMessage R.F))) × (metrics_request data_ ≡ ok m)
        × (read_metrics_request R B doc ≡ m)
  metrics_document doc data_ e =
      elim (read_metrics_request-encode_resource_metrics R B zeros data_) [
        | both_return d m made built same ↦
            let loaded : d ≡ doc = ok-injective (sym made ∙ e) in
            (m, built, ap (read_metrics_request R B) (sym loaded) ∙ same)
        | both_refuse t u refused other ↦ cc
      ]

  json_payload :
      (envelopes : Envelopes R.F) (payload : Bytes)
      → encode_json R P envelopes ≡ ok payload
      → Means envelopes (some (text "application/json")) payload
  unfolding encode_json text str_eq
  json_payload (of_metrics data_) payload e =
      let (doc, encoded, dumped) = >>=-eq-ok (encode_resource_metrics R P.b64 data_) P.dumps e in
      let (m, built, same) =
        metrics_document doc data_
          (ap (λ b. encode_resource_metrics R b data_) (sym std.b64) ∙ encoded) in
      (
        metrics_message m,
        ap (λ r. r >>= λ m. ok (metrics_message m)) built,
        ap (read_json R B C metrics) (std.parse_json doc payload dumped)
            ∙ ap (λ m. some (metrics_message m)) same,
      )
  json_payload (of_logs data_) payload e = (
    _,
    refl,
    ap (read_json R B C logs) (std.parse_json _ payload e)
        ∙ ap (λ b. read_document R B C logs (encode_resource_logs b data_)) std.b64
        ∙ ap (λ m. some (logs_message m)) (read_logs_request-encode_resource_logs B data_),
  )
  json_payload (of_traces data_) payload e = (
    _,
    refl,
    ap (read_json R B C traces) (std.parse_json _ payload e)
        ∙ ap (λ b. read_document R B C traces (encode_resource_spans b data_)) std.b64
        ∙ ap (λ m. some (traces_message m)) (read_traces_request-encode_resource_spans B data_),
  )

  proto_payload :
      (envelopes : Envelopes R.F) (payload : Bytes)
      → encode_proto Q envelopes ≡ ok payload
      → Means envelopes (some (text "application/x-protobuf")) payload
  unfolding encode_proto text str_eq
  proto_payload (of_metrics data_) payload e =
      let (m, built, written) = >>=-eq-ok (metrics_request data_) Q.serialize_metrics e in
      (
        metrics_message m,
        ap (λ r. r >>= λ m. ok (metrics_message m)) built,
        std.parse_metrics m payload written,
      )
  proto_payload (of_logs data_) payload e = (_, refl, std.parse_logs _ payload e)
  proto_payload (of_traces data_) payload e = (_, refl, std.parse_traces _ payload e)

  -- The payload of the encoder that the client makes for a protocol.
  pub payload-Means :
      (protocol : OtlpProtocol) (encoder : Encoder R.F) (envelopes : Envelopes R.F)
      (payload : Bytes)
      → build_encoder R P (some Q) protocol ≡ ok encoder
      → encoder.encode envelopes ≡ ok payload
      → Means envelopes (some encoder.content_type) payload
  unfolding build_encoder name_extra build_protobuf_encoder json_encoder protobuf_encoder
  payload-Means http_json encoder envelopes payload made e =
      let same = ok-injective made in
      subst (λ (d : Encoder R.F). Means envelopes (some d.content_type) payload) same
        (json_payload envelopes payload (ap (λ (d : Encoder R.F). d.encode envelopes) same ∙ e))
  payload-Means http_protobuf encoder envelopes payload made e =
      let same = ok-injective made in
      subst (λ (d : Encoder R.F). Means envelopes (some d.content_type) payload) same
        (proto_payload envelopes payload (ap (λ (d : Encoder R.F). d.encode envelopes) same ∙ e))
  payload-Means grpc encoder envelopes payload made e =
      let same = ok-injective made in
      subst (λ (d : Encoder R.F). Means envelopes (some d.content_type) payload) same
        (proto_payload envelopes payload (ap (λ (d : Encoder R.F). d.encode envelopes) same ∙ e))

  -- An empty response reports nothing.
  pub nothing_reported :
      (protocol : OtlpProtocol) (encoder : Encoder R.F) (kind : SignalKind)
      → build_encoder R P (some Q) protocol ≡ ok encoder
      → encoder.decode_response kind [] ≡ ok none
  unfolding build_encoder name_extra build_protobuf_encoder json_encoder protobuf_encoder
      decode_json_response decode_proto_response
  nothing_reported http_json encoder kind made =
      ap (λ (d : Encoder R.F). d.decode_response kind []) (sym (ok-injective made))
  nothing_reported http_protobuf encoder kind made =
      ap (λ (d : Encoder R.F). d.decode_response kind []) (sym (ok-injective made))
  nothing_reported grpc encoder kind made =
      ap (λ (d : Encoder R.F). d.decode_response kind []) (sym (ok-injective made))
