-- ===== src/Client/Create.antt =====
-- `_build_encoder` and `OTLPClient.create`: the encoder and the transport of the configured protocol.
use asyncio_otlp_client.Base.{
  Bool, Option, Result, config_error, false, none, ok, raised, text, true,
}
use asyncio_otlp_client.Effects.{Eff, pure, raise, ◌>>=◌, ◌>>◌}
use asyncio_otlp_client.Floats.{Floats}
use asyncio_otlp_client.Model.Common.{InstrumentationScope}
use asyncio_otlp_client.Retry.Defs.{Hooks}
use asyncio_otlp_client.Config.Defs.{OtlpConfig, OtlpProtocol, http_json, grpc, UrlLib}
use asyncio_otlp_client.Client.Seams.{Encoder, Transport, CredentialProvider}
use asyncio_otlp_client.Client.Defs.{OtlpClient, new_client}
use asyncio_otlp_client.Http.Defs.{Libraries, http_transport}
use asyncio_otlp_client.Grpc.Create.{GrpcLibraries, create_grpc}
use asyncio_otlp_client.Encoding.Json.Encoder.{Python, json_encoder}
use asyncio_otlp_client.Encoding.Proto.Encoder.{Protobuf, build_protobuf_encoder}

-- `except OTLPConfigError` in `_build_encoder`
unfoldable pub name_extra : {F : Type 0} → OtlpProtocol → Result (Encoder F) → Result (Encoder F)
name_extra grpc (raised (config_error message)) = raised (
    config_error
      (text "the gRPC transport needs the optional extra: pip install 'asyncio-otlp-client[grpc]'"))
name_extra _ r = r

-- `_build_encoder`, with opentelemetry-proto if it can be imported
unfoldable pub build_encoder :
    (R : Floats) → Python (R.F) → Option (Protobuf (R.F)) → OtlpProtocol → Result (Encoder (R.F))
unfolding json_encoder build_protobuf_encoder name_extra
build_encoder R python protobuf http_json = ok (json_encoder R python)
build_encoder R python protobuf protocol = name_extra protocol (build_protobuf_encoder protobuf)

-- the argument `session`: none, one of aiohttp, or another object
pub data Session : Type 0 where
  no_session aiohttp_session other_session : Session

-- the transport makes its own session
abbrev is_own : Session → Bool
is_own no_session = true
is_own _ = false

-- What is installed, what grpcio and files give, and how an HTTP transport is prepared, with its TLS context and its session; then `http` are the libraries with the session.
pub record Installed (W : Type 0) (R : Floats) : Type 1 where
  pub urls : UrlLib
  pub python : Python R.F
  pub protobuf : Option (Protobuf R.F)
  pub has_grpc : Bool
  pub grpcio : GrpcLibraries W R.F
  pub prepare_http : Session → OtlpConfig R.F → Eff W (Unit {0})
  pub http : Session → Libraries W R.F

module _ {W : Type 0} (R : Floats) (I : Installed W R) where
  -- the transport of the protocol
  unfoldable pub make_transport :
      OtlpProtocol → OtlpConfig R.F → Encoder R.F → Session → Eff W (Transport W R.F)
  unfolding create_grpc http_transport
  make_transport grpc config encoder given = create_grpc R I.urls I.grpcio I.has_grpc config encoder
  make_transport _ config encoder other_session =
      raise (config_error (text "session must be an aiohttp.ClientSession"))
  make_transport _ config encoder given =
      I.prepare_http given config
      >> pure (http_transport R (I.http given) config encoder (is_own given))

  -- `create`
  unfoldable pub create :
      OtlpConfig R.F
      → Session
      → Option (InstrumentationScope R.F)
      → Option (CredentialProvider W)
      → Hooks W R.F
      → Eff W (OtlpClient W R.F)
  unfolding build_encoder make_transport new_client
  create config given scope credentials hooks =
      (λ w. (build_encoder R I.python I.protobuf config.protocol, w)) >>= λ encoder.
      make_transport config.protocol config encoder given >>= λ transport.
      pure (new_client config transport encoder credentials scope none hooks)
