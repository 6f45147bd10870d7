-- ===== src/Http/Tls.antt =====
-- `_build_ssl_context` of src/otlp_client/transport/http.py: the settings of the context that it builds.
use asyncio_otlp_client.Base.{
  ◌≡◌, Bool, true, ◌||◌, not, Option, none, some, [], Str, is_empty, or_default, if◌then◌else◌,
  arith,
}
use asyncio_otlp_client.Config.Defs.{OtlpConfig}

-- The file of trusted certificates, whether the host and the certificate are checked, and the client's
-- certificate with its key; an `SSLContext` of the ssl module has been given these.
pub record TlsSettings : Type 0 where
  pub cafile : Option Str
  pub verifies : Bool
  pub client_chain : Option (Str × Option Str)

-- a path that is set and not empty
abbrev pub is_set : Option Str → Bool
is_set path = not (is_empty (or_default [] path))

-- what aiohttp checks with the argument `ssl`, where a missing context stands for `True`
unfoldable pub checks_certificates : Option TlsSettings → Bool
checks_certificates none = true
checks_certificates (some settings) = settings.verifies

module _ {F : Type 0} where
  -- the arguments of `load_cert_chain`
  unfoldable pub client_chain_of : OtlpConfig F → Option (Str × Option Str)
  client_chain_of config =
      if is_set config.client_certificate_file
      then some (or_default [] config.client_certificate_file, config.client_key_file)
      else none

  -- `_build_ssl_context`; with none, aiohttp checks certificates by its own context
  unfoldable pub tls_settings : OtlpConfig F → Option TlsSettings
  unfolding client_chain_of
  tls_settings config =
      if is_set config.certificate_file
        || is_set config.client_certificate_file
        || config.insecure_skip_verify
      then some (record {
        cafile = config.certificate_file;
        verifies = not config.insecure_skip_verify;
        client_chain = client_chain_of config;
      })
      else none

  -- Certificates are checked unless `insecure_skip_verify` is set, whatever files are configured.
  pub tls_settings-verifies :
      (config : OtlpConfig F)
      → checks_certificates (tls_settings config) ≡ not config.insecure_skip_verify
  unfolding checks_certificates tls_settings
  tls_settings-verifies config = ground arith
