-- ===== src/Grpc/Defs.antt =====
-- `GRPCTransport`: the call that `send` makes and the outcome that it reads from the reply. grpcio is
-- the parameter `call`.
use asyncio_otlp_client.Base.{
  ℕ, Bool, true, false, Option, none, some, List, [], ◌∷◌, Str, text, str_eq, is_empty,
  if◌then◌else◌,
}
use asyncio_otlp_client.Base.Int.{pos}
use asyncio_otlp_client.Effects.{Eff, pure, ◌>>=◌}
use asyncio_otlp_client.Floats.{Floats, max_of}
use asyncio_otlp_client.Signals.{SignalKind, metrics, logs, traces, profiles}
use asyncio_otlp_client.Outcomes.{
  PartialSuccess, ExportOutcome, success, partial_success, retryable, permanent,
}
use asyncio_otlp_client.Config.Defs.{
  OtlpConfig, Compression, no_compression, gzip, Headers, timeout_for, compression_for,
}
use asyncio_otlp_client.Model.Common.{Bytes}
use asyncio_otlp_client.Client.Seams.{Encoder, Transport}

-- `grpc.StatusCode`, with the codes that the transport does not name as one.
pub data Code : Type 0 where
  unavailable deadline_exceeded resource_exhausted unauthenticated permission_denied : Code
  other_code : Str → Code

-- An `AioRpcError`; an empty text for details that are `None`.
pub record RpcError : Type 0 where
  pub code : Code
  pub details : Str
  pub trailing : List (Str × Str)

pub data CallReply : Type 0 where
  rpc_failed : RpcError → CallReply
  rpc_done : Bytes → CallReply

-- The method of a call and its arguments.
pub record Call (F : Type 0) : Type 0 where
  pub method : Str
  pub payload : Bytes
  pub timeout : F
  pub metadata : Headers
  pub compressed : Bool

-- The channel, and `str(code)`.
pub record Channel (W F : Type 0) : Type 0 where
  pub call : Call F → Eff W CallReply
  pub close : Eff W (Unit {0})
  pub code_text : Code → Str

unfoldable pub method_of : SignalKind → Str
method_of metrics = text "/opentelemetry.proto.collector.metrics.v1.MetricsService/Export"
method_of logs = text "/opentelemetry.proto.collector.logs.v1.LogsService/Export"
method_of traces = text "/opentelemetry.proto.collector.trace.v1.TraceService/Export"
method_of profiles =
    text "/opentelemetry.proto.collector.profiles.v1development.ProfilesService/Export"

-- `code in retryable`
unfoldable pub is_retryable_code : Code → Bool
is_retryable_code unavailable = true
is_retryable_code deadline_exceeded = true
is_retryable_code resource_exhausted = true
is_retryable_code _ = false

-- `auth_statuses.get(code)`
unfoldable pub auth_status : Code → Option ℕ
auth_status unauthenticated = some 401
auth_status permission_denied = some 403
auth_status _ = none

abbrev pub asks_gzip : Compression → Bool
asks_gzip no_compression = false
asks_gzip gzip = true

module _ (R : Floats) where
  open R use {F, parse, div, of_int}

  -- `_pushback`: the first entry with the key decides
  unfoldable pub pushback : List (Str × Str) → Option F
  pushback [] = none
  pushback ((key, value) ∷ entries) =
      let rest = pushback entries in
      if str_eq key (text "grpc-retry-pushback-ms")
      then elim (parse value) [
        | some ms ↦ some (max_of R (of_int (pos 0)) (div ms (of_int (pos 1000))))
        | none ↦ none
      ]
      else rest

module _ (R : Floats) {W : Type 0} (C : Channel W (R.F)) (config : OtlpConfig (R.F))
    (encoder : Encoder (R.F)) where
  open R use {F}

  -- `_classify`
  unfoldable pub classify_error : RpcError → ExportOutcome F
  unfolding pushback is_retryable_code auth_status
  classify_error exc =
      let message = if is_empty exc.details then C.code_text exc.code else exc.details in
      if is_retryable_code exc.code
      then retryable none message (pushback R exc.trailing)
      else permanent (auth_status exc.code) message

  -- `partial if partial is not None else Success()`
  unfoldable pub done_outcome : Option PartialSuccess → ExportOutcome F
  done_outcome none = success
  done_outcome (some p) = partial_success p

  unfoldable pub read_reply : SignalKind → CallReply → Eff W (ExportOutcome F)
  unfolding classify_error done_outcome
  read_reply kind (rpc_failed exc) = pure (classify_error exc)
  read_reply kind (rpc_done raw) =
      (λ w. (encoder.decode_response kind raw, w)) >>= λ partial. pure (done_outcome partial)

  unfoldable pub grpc_call : SignalKind → Bytes → Headers → Call F
  unfolding method_of
  grpc_call kind payload headers = record {
    method = method_of kind;
    payload = payload;
    timeout = timeout_for config kind;
    metadata = headers;
    compressed = asks_gzip (compression_for config kind);
  }

  -- `send`
  unfoldable pub grpc_send : SignalKind → Bytes → Headers → Eff W (ExportOutcome F)
  unfolding grpc_call read_reply
  grpc_send kind payload headers = C.call (grpc_call kind payload headers) >>= read_reply kind

  -- the transport as its protocol
  unfoldable pub grpc_transport : Transport W F
  unfolding grpc_send
  grpc_transport = record { send = grpc_send; aclose = C.close }
