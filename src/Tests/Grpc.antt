-- ===== src/Tests/Grpc.antt =====
-- A send over gRPC to a server that asks for a pause.
use asyncio_otlp_client.Base.{
  ℕ, ◌+◌, ◌≡◌, Exc, cancelled, raised, refl, not, true, false, Str, none, some, [], ◌∷◌, str_eq,
  text, ok,
}
use asyncio_otlp_client.Signals.{logs}
use asyncio_otlp_client.Outcomes.{ExportOutcome, retryable, is_credential_rejection}
use asyncio_otlp_client.Retry.Returns.{is_final}
use asyncio_otlp_client.Http.Replies.{is_delivered, WaitsForward}
use asyncio_otlp_client.Grpc.Defs.{
  resource_exhausted, CallReply, rpc_failed, Channel, grpc_send, grpc_transport, is_retryable_code,
  pushback,
}
use asyncio_otlp_client.Grpc.Codes.{took, asks_again, refuses, grpc_send_lem}
use asyncio_otlp_client.Grpc.Open.{has_slashes, target, has_override, open_grpc}
use asyncio_otlp_client.Grpc.Create.{
  GrpcLibraries, create_grpc, create_grpc-https, create_grpc-credentials,
}
use asyncio_otlp_client.Config.Defs.{OtlpConfig, UrlLib}
use asyncio_otlp_client.Client.Seams.{Encoder}
use asyncio_otlp_client.Tests.Samples.{ticks, ticks-IsOrder, World, fresh}
use asyncio_otlp_client.Tests.Config.{configured}
use asyncio_otlp_client.Tests.Client.{encoder}

abbrev exhausted : CallReply
exhausted = rpc_failed (record {
  code = resource_exhausted;
  details = text "slow down";
  trailing = (text "grpc-retry-pushback-ms", text "2000") ∷ [];
})

abbrev paused : ExportOutcome ℕ
paused = retryable none (text "slow down") (some 2)

abbrev channel : Channel World ℕ
channel = record {
  call = λ c w. (ok exhausted, record w { tries = w.tries + 1 });
  close = λ w. (ok tt, w);
  code_text = λ code. [];
}

grpc_send-paused :
    grpc_send ticks channel configured encoder logs (0 ∷ []) [] fresh
    ≡ (ok paused, record fresh { tries = 1 })
unfolding grpc_send text pushback is_retryable_code str_eq
grpc_send-paused = refl

grpc_send_lem_example :
    (is_delivered paused ≡ took exhausted)
    × (is_final paused ≡ not (asks_again exhausted))
    × (is_credential_rejection paused ≡ refuses exhausted)
    × WaitsForward ticks paused
grpc_send_lem_example =
    grpc_send_lem ticks channel configured encoder ticks-IsOrder logs (0 ∷ []) [] exhausted paused
      fresh (record fresh { tries = 1 }) (record fresh { tries = 1 }) refl grpc_send-paused

-- every endpoint is taken for an https one
abbrev https_urls : UrlLib
https_urls = record {
  Parsed = Str;
  urlparse = λ s. s;
  urlunparse = λ s. s;
  scheme = λ s. text "https";
  netloc = λ s. s;
  path = λ s. [];
  replace_path = λ s path. s;
}

abbrev secure : OtlpConfig ℕ
secure = record configured { endpoint = text "https://c:4317"; insecure = true }

abbrev binary : Encoder ℕ
binary = record encoder { content_type = text "application/x-protobuf" }

open_grpc-secure : open_grpc https_urls true secure binary ≡ ok (text "https://c:4317", false)
unfolding open_grpc target has_slashes has_override str_eq text
open_grpc-secure = refl

-- every file has one byte, and every channel pauses
abbrev grpcio : GrpcLibraries World ℕ
grpcio = record {
  read_file = λ p w. (ok (7 ∷ []), w);
  insecure_channel = λ host w. (ok channel, w);
  secure_channel = λ host credentials w. (ok channel, w);
}

abbrev unchecked : OtlpConfig ℕ
unchecked = record secure { insecure_skip_verify = true }

create_grpc-https_example :
    (create_grpc ticks https_urls grpcio true unchecked binary fresh
      ≡ create_grpc ticks https_urls
          (record grpcio { insecure_channel = λ host w. (raised cancelled, w) })
          true
          unchecked
          binary
          fresh)
    × (true ≡ true
        → (e : Exc) × (create_grpc ticks https_urls grpcio true unchecked binary fresh
            ≡ (raised e, fresh)))
unfolding text
create_grpc-https_example =
    create_grpc-https ticks https_urls grpcio true unchecked binary refl
      (λ host w. (raised cancelled, w)) fresh

create_grpc-credentials_example :
    create_grpc ticks https_urls grpcio true secure binary fresh
    ≡ (ok (grpc_transport ticks channel secure binary), fresh)
create_grpc-credentials_example =
    create_grpc-credentials ticks https_urls grpcio (λ p. 7 ∷ []) (λ p w. refl) true secure binary
      (text "https://c:4317") channel fresh fresh open_grpc-secure refl
