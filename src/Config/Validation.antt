-- ===== src/Config/Validation.antt =====
-- Which configurations exist, and what the environment can make.
use asyncio_otlp_client.Base.{
  ◌≡◌, ◌≢◌, ◌↔◌, ◌⊎◌, inl, inr, refl, Bool, true, false, Option, none, some, List, [], ◌∷◌, ◌++◌,
  Str, text, or_default, List-cases, All, config_error, Result, ok, raised, stuck, >>=-eq-ok,
  Returns, Returns-bind, Returns-ok, arith, subst, sym,
}
use asyncio_otlp_client.Base.Int.{pos}
use asyncio_otlp_client.Floats.{Floats}
use asyncio_otlp_client.Config.Defs.{
  OtlpConfig, check_timeout, post_init, Compression, no_compression,
}
use asyncio_otlp_client.Config.Parse.{parse_bool, parse_protocol, parse_headers, unset}
use asyncio_otlp_client.Config.Env.{
  Env, variable, unsupported_options, signal_prefixes, reject_options, reject_signals,
  reject_unsupported_per_signal, from_env, env_fields, assemble, default_endpoint, timeout_var,
  compression_var, headers_var,
}

-- `OTLPConfigError` was raised.
abbrev pub is_config_error : {A : Type 0} → Result A → Bool
is_config_error (raised (config_error m)) = true
is_config_error (raised e) = false
is_config_error (ok a) = false
is_config_error stuck = false

-- A timeout that is configured passes the test of the code: it is not at most zero. NaN passes it too.
abbrev pub IsNotAtMostZero : (R : Floats) → Option (R.F) → Type 0
IsNotAtMostZero R none = Unit
IsNotAtMostZero R (some x) = R.le x (R.of_int (pos 0)) ≡ false

pub record IsValid (R : Floats) (c : OtlpConfig (R.F)) : Type 0 where
  pub endpoint_given : c.endpoint ≢ []
  pub timeout_passes : R.le (c.timeout) (R.of_int (pos 0)) ≡ false
  pub elapsed_passes : R.le (c.max_elapsed) (R.of_int (pos 0)) ≡ false
  pub metrics_passes : IsNotAtMostZero R (c.metrics_timeout)
  pub logs_passes : IsNotAtMostZero R (c.logs_timeout)
  pub traces_passes : IsNotAtMostZero R (c.traces_timeout)

module _ (R : Floats) where
  open R use {F}

  check_timeout-ok :
      (name : Str) (o : Option F) → check_timeout R name o ≡ ok tt → IsNotAtMostZero R o
  unfolding check_timeout
  check_timeout-ok name none h = tt
  check_timeout-ok name (some x) h = ground arith

  post_init-IsValid : (c d : OtlpConfig F) → post_init R c ≡ ok d → (d ≡ c) × IsValid R c
  unfolding post_init check_timeout
  post_init-IsValid c d h = ground arith

  IsValid-post_init : (c : OtlpConfig F) → IsValid R c → post_init R c ≡ ok c
  unfolding post_init check_timeout
  IsValid-post_init c v = elim (List-cases c.endpoint) [
    | inl e ↦ absurd (v.endpoint_given e)
    | inr (x, xs, e) ↦ ground arith
  ]

  post_init-cases :
      (c : OtlpConfig F) → (post_init R c ≡ ok c) ⊎ (is_config_error (post_init R c) ≡ true)
  unfolding post_init check_timeout
  post_init-cases c = ground arith

  invalid : (c : OtlpConfig F) → ¬ IsValid R c → is_config_error (post_init R c) ≡ true
  invalid c n = elim (post_init-cases c) [
    | inl e ↦ absurd (n (post_init-IsValid c c e).1)
    | inr found ↦ found
  ]

  post_init-IsValid_iff :
      (c : OtlpConfig F)
      → ((post_init R c ≡ ok c) ↔ IsValid R c)
        × (¬ IsValid R c → (is_config_error (post_init R c) ≡ true))
  post_init-IsValid_iff c =
      (((λ h. (post_init-IsValid c c h).1), IsValid-post_init c), λ n. invalid c n)

-- What IEEE comparison guarantees: what is above is not at most; NaN, which is not at most itself, is not
-- at most anything; and of two values that are not NaN, one is at most the other or above it.
pub record IsIeee (R : Floats) : Type 0 where
  pub above : (a b : R.F) → R.lt b a ≡ true → R.le a b ≡ false
  pub nan : (a b : R.F) → R.le a a ≡ false → R.le a b ≡ false
  pub total :
      (a b : R.F) → R.le a b ≡ false → (R.lt b a ≡ true) ⊎ (R.le a a ≡ false) ⊎ (R.le b b ≡ false)
  pub zero : R.le (R.of_int (pos 0)) (R.of_int (pos 0)) ≡ true

-- above zero, or NaN
abbrev pub IsAboveOrNan : (R : Floats) → R.F → Type 0
IsAboveOrNan R x = (R.lt (R.of_int (pos 0)) x ≡ true) ⊎ (R.le x x ≡ false)

abbrev pub IsUnsetOr : {A : Type 0} → (A → Type 0) → Option A → Type 0
IsUnsetOr P none = Unit
IsUnsetOr P (some x) = P x

-- The configurations that can be made, by the order of the floats.
pub record IsAdmissible (R : Floats) (c : OtlpConfig (R.F)) : Type 0 where
  pub endpoint_set : c.endpoint ≢ []
  pub timeout_admitted : IsAboveOrNan R (c.timeout)
  pub elapsed_admitted : IsAboveOrNan R (c.max_elapsed)
  pub metrics_admitted : IsUnsetOr (IsAboveOrNan R) (c.metrics_timeout)
  pub logs_admitted : IsUnsetOr (IsAboveOrNan R) (c.logs_timeout)
  pub traces_admitted : IsUnsetOr (IsAboveOrNan R) (c.traces_timeout)

module _ (R : Floats) (ieee : IsIeee R) where
  open R use {F}

  passes-above : (x : F) → R.le x (R.of_int (pos 0)) ≡ false → IsAboveOrNan R x
  passes-above x h = elim (ieee.total x (R.of_int (pos 0)) h) [
    | inl above ↦ inl above
    | inr (inl nan) ↦ inr nan
    | inr (inr never) ↦ ground (arith, ieee.zero)
  ]

  above-passes : (x : F) → IsAboveOrNan R x → R.le x (R.of_int (pos 0)) ≡ false
  above-passes x (inl above) = ieee.above x (R.of_int (pos 0)) above
  above-passes x (inr nan) = ieee.nan x (R.of_int (pos 0)) nan

  optional_passes : (o : Option F) → IsNotAtMostZero R o → IsUnsetOr (IsAboveOrNan R) o
  optional_passes none h = tt
  optional_passes (some x) h = passes-above x h

  optional_above : (o : Option F) → IsUnsetOr (IsAboveOrNan R) o → IsNotAtMostZero R o
  optional_above none h = tt
  optional_above (some x) h = above-passes x h

  IsValid-IsAdmissible : (c : OtlpConfig F) → IsValid R c → IsAdmissible R c
  IsValid-IsAdmissible c v = record {
    endpoint_set = v.endpoint_given;
    timeout_admitted = passes-above c.timeout v.timeout_passes;
    elapsed_admitted = passes-above c.max_elapsed v.elapsed_passes;
    metrics_admitted = optional_passes c.metrics_timeout v.metrics_passes;
    logs_admitted = optional_passes c.logs_timeout v.logs_passes;
    traces_admitted = optional_passes c.traces_timeout v.traces_passes;
  }

  IsAdmissible-IsValid : (c : OtlpConfig F) → IsAdmissible R c → IsValid R c
  IsAdmissible-IsValid c a = record {
    endpoint_given = a.endpoint_set;
    timeout_passes = above-passes c.timeout a.timeout_admitted;
    elapsed_passes = above-passes c.max_elapsed a.elapsed_admitted;
    metrics_passes = optional_above c.metrics_timeout a.metrics_admitted;
    logs_passes = optional_above c.logs_timeout a.logs_admitted;
    traces_passes = optional_above c.traces_timeout a.traces_admitted;
  }

  -- A configuration can be made exactly if its endpoint is not empty and every timeout that it has is
  -- above zero or NaN; making any other raises `OTLPConfigError`. Comparison is that of IEEE floats.
  pub post_init_iff :
      (c : OtlpConfig F)
      → ((post_init R c ≡ ok c) ↔ IsAdmissible R c)
        × (¬ IsAdmissible R c → (is_config_error (post_init R c) ≡ true))
  post_init_iff c =
      let (made, wrong) = post_init-IsValid_iff R c in
      (
        ((λ h. IsValid-IsAdmissible c (made.0 h)), λ a. made.1 (IsAdmissible-IsValid c a)),
        λ n. wrong (λ v. n (IsValid-IsAdmissible c v)),
      )

-- No per-signal variable that the client cannot honour is set.
abbrev pub IsAllowed : Env → Type 0
IsAllowed src =
    All
      (λ signal.
        All (λ option. unset (src (variable (signal ++ (text "_" ++ option)))) ≡ true)
          unsupported_options)
      signal_prefixes

-- The settings of a configuration come each from its own variable; a general timeout or compression
-- that is not set has the default of the class.
pub record ReadsEnv (R : Floats) (unquote : Str → Str) (src : Env) (c : OtlpConfig (R.F))
    : Type 0 where
  pub protocol_read :
      parse_protocol (or_default (text "http/json") (src (variable (text "PROTOCOL"))))
      ≡ ok c.protocol
  pub endpoint_read :
      c.endpoint ≡ or_default (default_endpoint c.protocol) (src (variable (text "ENDPOINT")))
  pub metrics_endpoint_read : c.metrics_endpoint ≡ src (variable (text "METRICS_ENDPOINT"))
  pub logs_endpoint_read : c.logs_endpoint ≡ src (variable (text "LOGS_ENDPOINT"))
  pub traces_endpoint_read : c.traces_endpoint ≡ src (variable (text "TRACES_ENDPOINT"))
  pub headers_read :
      parse_headers unquote (or_default [] (src (variable (text "HEADERS")))) ≡ ok c.headers
  pub metrics_headers_read :
      headers_var R unquote src (text "METRICS_HEADERS") ≡ ok c.metrics_headers
  pub logs_headers_read : headers_var R unquote src (text "LOGS_HEADERS") ≡ ok c.logs_headers
  pub traces_headers_read : headers_var R unquote src (text "TRACES_HEADERS") ≡ ok c.traces_headers
  pub timeout_read :
      (o : Option (R.F)) × (timeout_var R unquote src (text "TIMEOUT") ≡ ok o)
      × (c.timeout ≡ or_default (R.of_int (pos 10)) o)
  pub metrics_timeout_read :
      timeout_var R unquote src (text "METRICS_TIMEOUT") ≡ ok c.metrics_timeout
  pub logs_timeout_read : timeout_var R unquote src (text "LOGS_TIMEOUT") ≡ ok c.logs_timeout
  pub traces_timeout_read : timeout_var R unquote src (text "TRACES_TIMEOUT") ≡ ok c.traces_timeout
  pub compression_read :
      (o : Option Compression) × (compression_var R unquote src (text "COMPRESSION") ≡ ok o)
      × (c.compression ≡ or_default no_compression o)
  pub metrics_compression_read :
      compression_var R unquote src (text "METRICS_COMPRESSION") ≡ ok c.metrics_compression
  pub logs_compression_read :
      compression_var R unquote src (text "LOGS_COMPRESSION") ≡ ok c.logs_compression
  pub traces_compression_read :
      compression_var R unquote src (text "TRACES_COMPRESSION") ≡ ok c.traces_compression
  pub insecure_read : c.insecure ≡ (parse_bool (or_default [] (src (variable (text "INSECURE"))))).0
  pub certificate_read : c.certificate_file ≡ src (variable (text "CERTIFICATE"))
  pub client_certificate_read :
      c.client_certificate_file ≡ src (variable (text "CLIENT_CERTIFICATE"))
  pub client_key_read : c.client_key_file ≡ src (variable (text "CLIENT_KEY"))

unset_option :
    (src : Env) (signal : Str) (options : List Str)
    → reject_options src signal options ≡ ok tt
    → All (λ option. unset (src (variable (signal ++ (text "_" ++ option)))) ≡ true) options
unfolding reject_options
unset_option src signal [] h = tt
unset_option src signal (option ∷ options) h = ground (arith, unset_option src signal options)

unset_signal :
    (src : Env) (signals : List Str)
    → reject_signals src signals ≡ ok tt
    → All
        (λ signal.
          All
            (λ option. unset (src (variable (signal ++ (text "_" ++ option)))) ≡ true)
            unsupported_options)
        signals
unfolding reject_signals
unset_signal src [] h = tt
unset_signal src (signal ∷ signals) h =
    let (u, first, rest) = >>=-eq-ok (reject_options src signal unsupported_options) _ h in
    (unset_option src signal unsupported_options first, unset_signal src signals rest)

allowed_lem : (src : Env) → reject_unsupported_per_signal src ≡ ok tt → IsAllowed src
unfolding reject_unsupported_per_signal
allowed_lem src h = unset_signal src signal_prefixes h

module _ (R : Floats) (unquote : Str → Str) (multiplier : R.F) (src : Env) where
  open R use {F}

  env_fields-ReadsEnv : Returns (ReadsEnv R unquote src) (env_fields R unquote multiplier src)
  unfolding env_fields
  env_fields-ReadsEnv =
      let P = ReadsEnv R unquote src in
      Returns-bind P _ _ λ protocol e₁. Returns-bind P _ _ λ base_compression e₂.
        Returns-bind P _ _ λ base_timeout e₃. Returns-bind P _ _ λ headers e₄.
          Returns-bind P _ _ λ metrics_headers e₅. Returns-bind P _ _ λ logs_headers e₆.
            Returns-bind P _ _ λ traces_headers e₇. Returns-bind P _ _ λ metrics_timeout e₈.
              Returns-bind P _ _ λ logs_timeout e₉. Returns-bind P _ _ λ traces_timeout e₁₀.
                Returns-bind P _ _ λ metrics_compression e₁₁.
                  Returns-bind P _ _ λ logs_compression e₁₂.
                    Returns-bind P (compression_var R unquote src (text "TRACES_COMPRESSION"))
                      (λ last. ok (
                        assemble R unquote multiplier src protocol base_compression base_timeout
                          headers metrics_headers logs_headers traces_headers metrics_timeout
                          logs_timeout traces_timeout metrics_compression logs_compression last))
                      λ traces_compression e₁₃. record {
                        protocol_read = e₁;
                        endpoint_read = refl;
                        metrics_endpoint_read = refl;
                        logs_endpoint_read = refl;
                        traces_endpoint_read = refl;
                        headers_read = e₄;
                        metrics_headers_read = e₅;
                        logs_headers_read = e₆;
                        traces_headers_read = e₇;
                        timeout_read = (base_timeout, e₃, refl);
                        metrics_timeout_read = e₈;
                        logs_timeout_read = e₉;
                        traces_timeout_read = e₁₀;
                        compression_read = (base_compression, e₂, refl);
                        metrics_compression_read = e₁₁;
                        logs_compression_read = e₁₂;
                        traces_compression_read = e₁₃;
                        insecure_read = refl;
                        certificate_read = refl;
                        client_certificate_read = refl;
                        client_key_read = refl;
                      }

  -- A configuration that `from_env` returns has read each of its settings from that setting's own
  -- variable, it passes the validation, and the environment sets no per-signal variable that the
  -- client cannot honour.
  pub from_env_lem :
      (c : OtlpConfig F)
      → from_env R unquote multiplier src ≡ ok c
      → ReadsEnv R unquote src c × IsValid R c × IsAllowed src
  unfolding from_env
  from_env_lem c h =
      let (u, allowed, h₁) = >>=-eq-ok (reject_unsupported_per_signal src) _ h in
      let (d, fields, h₂) = >>=-eq-ok (env_fields R unquote multiplier src) (post_init R) h₁ in
      let (same, valid) = post_init-IsValid R d c h₂ in
      let reads = Returns-ok (ReadsEnv R unquote src) _ d fields env_fields-ReadsEnv in
      (
        subst (ReadsEnv R unquote src) (sym same) reads,
        subst (IsValid R) (sym same) valid,
        allowed_lem src allowed,
      )
