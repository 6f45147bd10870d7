-- ===== src/Config/Env.antt =====
-- `OTLPConfig.from_env`; an environment is what `Mapping.get` answers.
use asyncio_otlp_client.Base.{
  ◌++◌, ◌*◌, false, Option, none, some, List, [], ◌∷◌, Str, text, if◌then◌else◌, or_default,
  config_error, Result, ok, raised, ◌>>=◌, ◌>>◌,
}
use asyncio_otlp_client.Base.Int.{pos}
use asyncio_otlp_client.Floats.{Floats}
use asyncio_otlp_client.Config.Defs.{
  OtlpConfig, Compression, no_compression, OtlpProtocol, grpc, Headers, post_init,
}
use asyncio_otlp_client.Config.Parse.{
  parse_bool, parse_compression, parse_protocol, parse_timeout, parse_headers, unset,
}

abbrev pub Env : Type 0
Env = Str → Option Str

-- `OTEL_EXPORTER_OTLP_{name}`
unfoldable pub variable : Str → Str
variable name = text "OTEL_EXPORTER_OTLP_" ++ name

unfoldable pub default_endpoint : OtlpProtocol → Str
default_endpoint grpc = text "http://localhost:4317"
default_endpoint _ = text "http://localhost:4318"

unfoldable pub unsupported_options : List Str
unsupported_options =
    text "PROTOCOL"
    ∷ text "INSECURE"
    ∷ text "CERTIFICATE"
    ∷ text "CLIENT_KEY"
    ∷ text "CLIENT_CERTIFICATE"
    ∷ []

unfoldable pub signal_prefixes : List Str
signal_prefixes = text "TRACES" ∷ text "METRICS" ∷ text "LOGS" ∷ []

unfoldable pub unsupported_message : Str
unsupported_message =
    text " is not supported: one OTLPClient holds a single encoder and "
    ++ (text "transport, so this cannot vary per signal. Use separate OTLPClient "
        ++ text "instances, one per signal, each with its own config.")

-- the inner loop of `_reject_unsupported_per_signal`
unfoldable pub reject_options : Env → Str → List Str → Result (Unit {0})
reject_options src signal [] = ok tt
reject_options src signal (option ∷ options) =
    let name = variable (signal ++ (text "_" ++ option)) in
    if unset (src name)
    then reject_options src signal options
    else raised (config_error (name ++ unsupported_message))

unfoldable pub reject_signals : Env → List Str → Result (Unit {0})
unfolding reject_options
reject_signals src [] = ok tt
reject_signals src (signal ∷ signals) =
    reject_options src signal unsupported_options >> reject_signals src signals

unfoldable pub reject_unsupported_per_signal : Env → Result (Unit {0})
unfolding reject_signals
reject_unsupported_per_signal src = reject_signals src signal_prefixes

module _ (unquote : Str → Str) where
  -- `_signal_headers`
  unfoldable pub signal_headers : Option Str → Result (Option Headers)
  signal_headers none = ok none
  signal_headers (some raw) = parse_headers unquote raw >>= λ h. ok (some h)

module _ (R : Floats) (unquote : Str → Str) where
  open R use {F, of_int}

  abbrev pub timeout_var : Env → Str → Result (Option F)
  timeout_var src name = parse_timeout R (src (variable name)) (variable name)

  abbrev pub compression_var : Env → Str → Result (Option Compression)
  compression_var src name = parse_compression (src (variable name)) (variable name)

  abbrev pub headers_var : Env → Str → Result (Option Headers)
  headers_var src name = signal_headers unquote (src (variable name))

  -- The arguments of the call `cls(...)`, from what was parsed. What is not read keeps the default of
  -- the class, of which `multiplier` is 1.5.
  abbrev pub assemble :
      (multiplier : F)
      → Env
      → OtlpProtocol
      → Option Compression
      → Option F
      → Headers
      → Option Headers
      → Option Headers
      → Option Headers
      → Option F
      → Option F
      → Option F
      → Option Compression
      → Option Compression
      → Option Compression
      → OtlpConfig F
  assemble multiplier src protocol base_compression base_timeout headers metrics_headers
        logs_headers traces_headers metrics_timeout logs_timeout traces_timeout metrics_compression
        logs_compression traces_compression =
      record {
        endpoint = or_default (default_endpoint protocol) (src (variable (text "ENDPOINT")));
        protocol = protocol;
        headers = headers;
        timeout = or_default (of_int (pos 10)) base_timeout;
        compression = or_default no_compression base_compression;
        gzip_threshold = 32 * 1024;
        resource = none;
        metrics_endpoint = src (variable (text "METRICS_ENDPOINT"));
        logs_endpoint = src (variable (text "LOGS_ENDPOINT"));
        traces_endpoint = src (variable (text "TRACES_ENDPOINT"));
        metrics_headers = metrics_headers;
        logs_headers = logs_headers;
        traces_headers = traces_headers;
        metrics_timeout = metrics_timeout;
        logs_timeout = logs_timeout;
        traces_timeout = traces_timeout;
        metrics_compression = metrics_compression;
        logs_compression = logs_compression;
        traces_compression = traces_compression;
        insecure = (parse_bool (or_default [] (src (variable (text "INSECURE"))))).0;
        certificate_file = src (variable (text "CERTIFICATE"));
        client_certificate_file = src (variable (text "CLIENT_CERTIFICATE"));
        client_key_file = src (variable (text "CLIENT_KEY"));
        insecure_skip_verify = false;
        initial_backoff = of_int (pos 1);
        max_backoff = of_int (pos 30);
        backoff_multiplier = multiplier;
        max_elapsed = of_int (pos 90);
      }

  -- the parsing, in the order of the source
  unfoldable pub env_fields : (multiplier : F) → Env → Result (OtlpConfig F)
  env_fields multiplier src = do
    protocol ← parse_protocol (or_default (text "http/json") (src (variable (text "PROTOCOL"))))
    base_compression ← compression_var src (text "COMPRESSION")
    base_timeout ← timeout_var src (text "TIMEOUT")
    headers ← parse_headers unquote (or_default [] (src (variable (text "HEADERS"))))
    metrics_headers ← headers_var src (text "METRICS_HEADERS")
    logs_headers ← headers_var src (text "LOGS_HEADERS")
    traces_headers ← headers_var src (text "TRACES_HEADERS")
    metrics_timeout ← timeout_var src (text "METRICS_TIMEOUT")
    logs_timeout ← timeout_var src (text "LOGS_TIMEOUT")
    traces_timeout ← timeout_var src (text "TRACES_TIMEOUT")
    metrics_compression ← compression_var src (text "METRICS_COMPRESSION")
    logs_compression ← compression_var src (text "LOGS_COMPRESSION")
    traces_compression ← compression_var src (text "TRACES_COMPRESSION")
    ok (
        assemble multiplier src protocol base_compression base_timeout headers metrics_headers
          logs_headers traces_headers metrics_timeout logs_timeout traces_timeout
          metrics_compression logs_compression traces_compression)

  unfoldable pub from_env : (multiplier : F) → Env → Result (OtlpConfig F)
  unfolding env_fields
  from_env multiplier src = do
    _ ← reject_unsupported_per_signal src
    c ← env_fields multiplier src
    post_init R c
