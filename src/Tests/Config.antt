-- ===== src/Tests/Config.antt =====
-- A configuration from an environment, and the parsers it goes through.
use asyncio_otlp_client.Base.{
  arith, ℕ, ◌≡◌, ◌↔◌, refl, false, true, Option, none, some, List, [], ◌∷◌, ◌++◌, Str, text, str_eq,
  ok, raised, config_error, or_default, if◌then◌else◌, is_empty, ◌==◌, ◌&&◌, ◌-◌,
}
use asyncio_otlp_client.Base.Strings.{strip, rstrip_slash, split, partition}
use asyncio_otlp_client.Base.Dict.{insert, lookup}
use asyncio_otlp_client.Signals.{metrics, logs, http_path}
use asyncio_otlp_client.Config.Defs.{
  OtlpConfig, Compression, UrlLib, Headers, post_init, endpoint_for, headers_for, endpoint_override,
  http_protobuf, gzip,
}
use asyncio_otlp_client.Config.Parse.{
  parse_headers, parse_bool, parse_protocol, parse_compression, parse_timeout,
}
use asyncio_otlp_client.Config.Env.{
  Env, variable, from_env, reject_unsupported_per_signal, signal_prefixes, unsupported_options,
  signal_headers,
}
use asyncio_otlp_client.Config.Validation.{
  IsIeee, IsAdmissible, IsValid, IsAllowed, ReadsEnv, is_config_error, post_init_iff, from_env_lem,
}
use asyncio_otlp_client.Config.Resolve.{endpoint_for_lem, headers_for-from_env, signal_value}
use asyncio_otlp_client.Config.HeaderText.{print_headers, parse_headers-print_headers}
use asyncio_otlp_client.Tests.Samples.{ticks}

abbrev unquote : Str → Str
unquote s = s

-- the variables that are set
abbrev find : List (Str × Str) → Str → Option Str
find [] name = none
find ((k, v) ∷ vars) name = let rest = find vars name in if str_eq k name then some v else rest

abbrev env : Env
env = find (
    (variable (text "PROTOCOL"), text "http/protobuf")
    ∷ (variable (text "ENDPOINT"), text "http://collector:4318/")
    ∷ (variable (text "HEADERS"), text "k=v, team = a=b ,")
    ∷ (variable (text "LOGS_HEADERS"), [])
    ∷ (variable (text "TIMEOUT"), text "5000")
    ∷ (variable (text "TRACES_COMPRESSION"), text "gzip")
    ∷ [])

abbrev pub configured : OtlpConfig ℕ
configured = record {
  endpoint = text "http://collector:4318/";
  protocol = http_protobuf;
  headers = (text "k", text "v") ∷ (text "team", text "a=b") ∷ [];
  timeout = 5;
  compression = Compression.no_compression;
  gzip_threshold = 32768;
  resource = none;
  metrics_endpoint = none;
  logs_endpoint = none;
  traces_endpoint = none;
  metrics_headers = none;
  logs_headers = some [];
  traces_headers = none;
  metrics_timeout = none;
  logs_timeout = none;
  traces_timeout = none;
  metrics_compression = none;
  logs_compression = none;
  traces_compression = some gzip;
  insecure = false;
  certificate_file = none;
  client_certificate_file = none;
  client_key_file = none;
  insecure_skip_verify = false;
  initial_backoff = 1;
  max_backoff = 30;
  backoff_multiplier = 2;
  max_elapsed = 90;
}

from_env-configured : from_env ticks unquote 2 env ≡ ok configured
unfolding from_env text variable reject_unsupported_per_signal signal_prefixes unsupported_options
    str_eq parse_protocol parse_compression parse_timeout parse_headers split partition
    signal_headers post_init insert parse_bool
from_env-configured = refl

from_env_lem_example :
    ReadsEnv ticks unquote env configured × IsValid ticks configured × IsAllowed env
from_env_lem_example = from_env_lem ticks unquote 2 env configured from_env-configured

headers_for-from_env_example :
    parse_headers unquote (
      or_default
        (or_default [] (env (variable (text "HEADERS"))))
        (signal_value env logs (text "HEADERS")))
    ≡ ok (headers_for configured logs)
headers_for-from_env_example =
    headers_for-from_env ticks unquote 2 env configured logs from_env-configured

-- No count of ticks is a NaN.
ticks-IsIeee : IsIeee ticks
ticks-IsIeee = record {
  above = λ a b h. ground arith;
  nan = λ a b h. ground arith;
  total = λ a b h. ground arith;
  zero = refl;
}

post_init_iff_example :
    ((post_init ticks configured ≡ ok configured) ↔ IsAdmissible ticks configured)
    × (¬ IsAdmissible ticks configured → (is_config_error (post_init ticks configured) ≡ true))
post_init_iff_example = post_init_iff ticks ticks-IsIeee configured

-- a URL, cut before its third slash
abbrev cut : ℕ → Str → Str × Str
cut slashes [] = ([], [])
cut slashes (c ∷ s) =
    let rest = cut (if c == b'/' then slashes - 1 else slashes) s in
    if c == b'/' && slashes == 0 then ([], c ∷ s) else (c ∷ rest.0, rest.1)

abbrev pub url_lib : UrlLib
url_lib = record {
  Parsed = Str × Str;
  urlparse = cut 2;
  urlunparse = λ parsed. parsed.0 ++ parsed.1;
  scheme = λ parsed. text "http";
  netloc = λ parsed. parsed.0;
  path = λ parsed. parsed.1;
  replace_path = λ parsed path. (parsed.0, path);
}

endpoint_for_lem_example :
    (endpoint_override configured metrics ≡ none
      → endpoint_for url_lib configured metrics ≡ text "http://collector:4318" ++ http_path metrics)
    × ((url : Str)
        → endpoint_override configured metrics ≡ some url
        → is_empty url ≡ false
        → is_empty (url_lib.path (url_lib.urlparse url)) ≡ false
        → endpoint_for url_lib configured metrics ≡ url)
unfolding text rstrip_slash
endpoint_for_lem_example =
    endpoint_for_lem url_lib configured metrics (text "http://collector:4318") (text "/") refl refl
      (refl, tt)

abbrev two_headers : Headers
two_headers = (text "k", text "v") ∷ (text "team", text "a=b") ∷ []

print_two_headers : print_headers two_headers ≡ text "k=v,team=a=b"
unfolding text
print_two_headers = refl

parse_headers-print_headers_example :
    parse_headers unquote (print_headers two_headers) ≡ ok two_headers
unfolding text strip str_eq lookup
parse_headers-print_headers_example =
    parse_headers-print_headers unquote (text "k", text "v") ((text "team", text "a=b") ∷ [])
      (
        (
          record { no_comma = (refl, tt); stripped = refl; unquoted = refl },
          (refl, tt),
          record { no_comma = (refl, tt); stripped = refl; unquoted = refl },
        ),
        (
          (
            record {
              no_comma = (refl, (refl, (refl, (refl, tt))));
              stripped = refl;
              unquoted = refl;
            },
            (refl, (refl, (refl, (refl, tt)))),
            record { no_comma = (refl, (refl, (refl, tt))); stripped = refl; unquoted = refl },
          ),
          tt,
        ),
      )
      (refl, (refl, tt))

parse_headers-malformed :
    parse_headers unquote (text "k=v,oops")
    ≡ raised (config_error (text "malformed header entry oops, expected key=value"))
unfolding parse_headers text split partition insert
parse_headers-malformed = refl
