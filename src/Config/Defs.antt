-- ===== src/Config/Defs.antt =====
-- `OTLPConfig`, `__post_init__`, and the four resolvers of a signal's settings.
use asyncio_otlp_client.Base.{
  ℕ, ◌++◌, Bool, Option, none, some, Str, text, is_empty, if◌then◌else◌, or_default, config_error,
  Result, ok, raised, ◌>>◌,
}
use asyncio_otlp_client.Base.Int.{pos}
use asyncio_otlp_client.Base.Dict.{Dict}
use asyncio_otlp_client.Base.Strings.{rstrip_slash}
use asyncio_otlp_client.Floats.{Floats}
use asyncio_otlp_client.Signals.{SignalKind, metrics, logs, traces, profiles, http_path}
use asyncio_otlp_client.Model.Common.{Resource}

pub data OtlpProtocol : Type 0 where
  http_json http_protobuf grpc : OtlpProtocol

pub data Compression : Type 0 where
  no_compression gzip : Compression

abbrev pub Headers : Type 0
Headers = Dict Str

pub record OtlpConfig (F : Type 0) : Type 0 where
  pub endpoint : Str
  pub protocol : OtlpProtocol
  pub headers : Headers
  pub timeout : F
  pub compression : Compression
  pub gzip_threshold : ℕ
  pub resource : Option (Resource F)
  pub metrics_endpoint : Option Str
  pub logs_endpoint : Option Str
  pub traces_endpoint : Option Str
  pub metrics_headers : Option Headers
  pub logs_headers : Option Headers
  pub traces_headers : Option Headers
  pub metrics_timeout : Option F
  pub logs_timeout : Option F
  pub traces_timeout : Option F
  pub metrics_compression : Option Compression
  pub logs_compression : Option Compression
  pub traces_compression : Option Compression
  pub insecure : Bool
  pub certificate_file : Option Str
  pub client_certificate_file : Option Str
  pub client_key_file : Option Str
  pub insecure_skip_verify : Bool
  pub initial_backoff : F
  pub max_backoff : F
  pub backoff_multiplier : F
  pub max_elapsed : F

-- `if test: raise OTLPConfigError(message)`
abbrev pub reject_if : Bool → Str → Result (Unit {0})
reject_if test message = if test then raised (config_error message) else ok tt

-- The functions of `urllib.parse` on URLs.
pub record UrlLib : Type 1 where
  pub Parsed : Type 0
  pub urlparse : Str → Parsed
  pub urlunparse : Parsed → Str
  pub scheme : Parsed → Str
  pub netloc : Parsed → Str
  pub path : Parsed → Str
  pub replace_path : Parsed → Str → Parsed

module _ (R : Floats) where
  open R use {F, le, of_int}

  -- `value <= 0`
  abbrev pub not_positive : F → Bool
  not_positive x = le x (of_int (pos 0))

  unfoldable pub check_timeout : Str → Option F → Result (Unit {0})
  check_timeout name none = ok tt
  check_timeout name (some x) =
      reject_if (not_positive x) (name ++ text " must be greater than zero")

  -- `OTLPConfig(...)`: the value, or what `__post_init__` raises
  unfoldable pub post_init : OtlpConfig F → Result (OtlpConfig F)
  unfolding check_timeout
  post_init c =
      reject_if (is_empty c.endpoint) (text "endpoint must be a non-empty URL")
      >> reject_if (not_positive c.timeout) (text "timeout must be greater than zero")
      >> reject_if (not_positive c.max_elapsed) (text "max_elapsed must be greater than zero")
      >> check_timeout (text "metrics_timeout") c.metrics_timeout
      >> check_timeout (text "logs_timeout") c.logs_timeout
      >> check_timeout (text "traces_timeout") c.traces_timeout
      >> ok c

-- the override of a signal's setting, from the three fields that hold one
unfoldable pub override : {A : Type 0} → Option A → Option A → Option A → SignalKind → Option A
override m l t metrics = m
override m l t logs = l
override m l t traces = t
override m l t profiles = none

-- a per-signal URL, with the root path if it has none
unfoldable pub rooted : UrlLib → Str → Str
rooted U url =
    let parsed = U.urlparse url in
    if is_empty (U.path parsed) then U.urlunparse (U.replace_path parsed (text "/")) else url

module _ {F : Type 0} where
  unfoldable pub endpoint_override : OtlpConfig F → SignalKind → Option Str
  unfolding override
  endpoint_override c = override c.metrics_endpoint c.logs_endpoint c.traces_endpoint

  unfoldable pub base_endpoint : OtlpConfig F → SignalKind → Str
  base_endpoint c kind = rstrip_slash c.endpoint ++ http_path kind

  -- `if override:` takes an empty text for none
  unfoldable pub endpoint_for : UrlLib → OtlpConfig F → SignalKind → Str
  unfolding endpoint_override base_endpoint rooted
  endpoint_for U c kind = elim (endpoint_override c kind) [
    | none ↦ base_endpoint c kind
    | some url ↦ if is_empty url then base_endpoint c kind else rooted U url
  ]

  unfoldable pub headers_for : OtlpConfig F → SignalKind → Headers
  unfolding override
  headers_for c kind =
      or_default c.headers (override c.metrics_headers c.logs_headers c.traces_headers kind)

  unfoldable pub timeout_for : OtlpConfig F → SignalKind → F
  unfolding override
  timeout_for c kind =
      or_default c.timeout (override c.metrics_timeout c.logs_timeout c.traces_timeout kind)

  unfoldable pub compression_for : OtlpConfig F → SignalKind → Compression
  unfolding override
  compression_for c kind =
      or_default c.compression
        (override c.metrics_compression c.logs_compression c.traces_compression kind)
