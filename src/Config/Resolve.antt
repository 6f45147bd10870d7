-- ===== src/Config/Resolve.antt =====
-- What a signal's export is sent to, with which headers and timeout.
use asyncio_otlp_client.Base.{
  ◌≡◌, refl, true, false, Option, none, some, [], ◌++◌, Str, text, is_empty, ◌==◌, or_default, All,
  ok, arith, ap, ◌∙◌, >>=-eq-ok,
}
use asyncio_otlp_client.Base.Strings.{rstrip_slash, drop_end_while-append}
use asyncio_otlp_client.Floats.{Floats}
use asyncio_otlp_client.Signals.{SignalKind, metrics, logs, traces, profiles, http_path}
use asyncio_otlp_client.Config.Defs.{
  OtlpConfig, UrlLib, Headers, override, endpoint_override, base_endpoint, rooted, endpoint_for,
  headers_for,
}
use asyncio_otlp_client.Config.Parse.{parse_headers}
use asyncio_otlp_client.Config.Env.{Env, variable, signal_headers, from_env}
use asyncio_otlp_client.Config.Validation.{ReadsEnv, from_env_lem}

-- Slashes at the end of the base endpoint do not matter: the path of the signal follows the endpoint
-- without them. A per-signal URL with a path is used as it is, whatever the base endpoint.
pub endpoint_for_lem :
    {F : Type 0} (U : UrlLib) (c : OtlpConfig F) (kind : SignalKind) (base slashes : Str)
    → c.endpoint ≡ base ++ slashes
    → rstrip_slash base ≡ base
    → All (λ x. (x == b'/') ≡ true) slashes
    → (endpoint_override c kind ≡ none → endpoint_for U c kind ≡ base ++ http_path kind)
      × ((url : Str)
          → endpoint_override c kind ≡ some url
          → is_empty url ≡ false
          → is_empty (U.path (U.urlparse url)) ≡ false
          → endpoint_for U c kind ≡ url)
unfolding endpoint_for base_endpoint rooted rstrip_slash
endpoint_for_lem U c kind base slashes e stripped only = (
  λ unset.
      rw (unset, endpoint_for)
        (ap (λ (t : Str). t ++ http_path kind)
          (ap rstrip_slash e
            ∙ drop_end_while-append (λ x. x == b'/') base slashes only
            ∙ stripped)),
  λ url set nonempty has_path. rw (set, endpoint_for) (rw nonempty (rw has_path)),
)

-- the variables that hold a signal's own settings
unfoldable pub signal_variable : SignalKind → Str → Option Str
signal_variable metrics setting = some (variable (text "METRICS_" ++ setting))
signal_variable logs setting = some (variable (text "LOGS_" ++ setting))
signal_variable traces setting = some (variable (text "TRACES_" ++ setting))
signal_variable profiles setting = none

-- the raw value of a signal's own setting, if there is one
unfoldable pub signal_value : Env → SignalKind → Str → Option Str
unfolding signal_variable
signal_value src kind setting = elim (signal_variable kind setting) [
  | none ↦ none
  | some name ↦ src name
]

module _ (R : Floats) (unquote : Str → Str) (multiplier : R.F) (src : Env) where
  open R use {F}

  signal_headers-own :
      (raw : Option Str) (own : Option Headers) (general : Headers)
      → signal_headers unquote raw ≡ ok own
      → parse_headers unquote (or_default [] (src (variable (text "HEADERS")))) ≡ ok general
      → parse_headers unquote (or_default (or_default [] (src (variable (text "HEADERS")))) raw)
        ≡ ok (or_default general own)
  unfolding signal_headers
  signal_headers-own none own general h g = ground (arith, g)
  signal_headers-own (some raw) own general h g =
      let (x, parsed, same) = >>=-eq-ok (parse_headers unquote raw) (λ x. ok (some x)) h in
      rw parsed (ground (arith, same))

  headers_own :
      (c : OtlpConfig F) (kind : SignalKind)
      → ReadsEnv R unquote src c
      → signal_headers unquote (signal_value src kind (text "HEADERS"))
        ≡ ok (override c.metrics_headers c.logs_headers c.traces_headers kind)
  unfolding signal_value override signal_headers text
  headers_own c metrics r = r.metrics_headers_read
  headers_own c logs r = r.logs_headers_read
  headers_own c traces r = r.traces_headers_read
  headers_own c profiles r = refl

  -- With a configuration from the environment, a signal is sent the headers of its own variable if
  -- that is set, be it to the empty text, and those of the general variable otherwise; the two are
  -- never merged.
  pub headers_for-from_env :
      (c : OtlpConfig F) (kind : SignalKind)
      → from_env R unquote multiplier src ≡ ok c
      → parse_headers unquote (
          or_default
            (or_default [] (src (variable (text "HEADERS"))))
            (signal_value src kind (text "HEADERS")))
        ≡ ok (headers_for c kind)
  unfolding headers_for
  headers_for-from_env c kind h =
      let (reads, valid, allowed) = from_env_lem R unquote multiplier src c h in
      signal_headers-own (signal_value src kind (text "HEADERS"))
        (override c.metrics_headers c.logs_headers c.traces_headers kind) c.headers
        (headers_own c kind reads) reads.headers_read
