-- ===== src/Grpc/Open.antt =====
-- `_target` and the checks of `GRPCTransport.create`.
use asyncio_otlp_client.Base.{
  ◌≡◌, refl, Bool, true, false, ◌||◌, ◌&&◌, not, [], ◌∷◌, ◌++◌, Str, text, str_eq, str_eq_iff,
  is_empty, or_default, Result, ok, ◌>>◌, if◌then◌else◌, arith, ◌==◌,
}
use asyncio_otlp_client.Config.Defs.{OtlpConfig, UrlLib, reject_if}
use asyncio_otlp_client.Client.Seams.{Encoder}

-- `"//" in s`
unfoldable pub has_slashes : Str → Bool
has_slashes [] = false
has_slashes (c ∷ []) = false
has_slashes (c ∷ d ∷ s) = (c == b'/' && d == b'/') || has_slashes (d ∷ s)

-- `a or b` of two texts
abbrev pub first_text : Str → Str → Str
first_text a b = if is_empty a then b else a

module _ (U : UrlLib) where
  open U use {urlparse, scheme, netloc, path}

  abbrev pub parsed_endpoint : Str → U.Parsed
  parsed_endpoint endpoint =
      urlparse (if has_slashes endpoint then endpoint else text "//" ++ endpoint)

  -- `_target`
  unfoldable pub target : Str → Bool → Str × Bool
  unfolding has_slashes
  target endpoint insecure =
      let parsed = parsed_endpoint endpoint in
      let host = first_text (netloc parsed) (path parsed) in
      if str_eq (scheme parsed) (text "https")
      then (host, false)
      else if str_eq (scheme parsed) (text "http")
      then (host, true)
      else (host, insecure)

  target-https :
      (endpoint : Str) (insecure : Bool)
      → scheme (parsed_endpoint endpoint) ≡ text "https"
      → (target endpoint insecure).1 ≡ false
  unfolding target
  target-https endpoint insecure secure =
      rw ((str_eq_iff (scheme (parsed_endpoint endpoint)) (text "https")).1 secure) refl

  module _ {F : Type 0} where
    -- `config.metrics_endpoint or config.logs_endpoint or config.traces_endpoint`
    unfoldable pub has_override : OtlpConfig F → Bool
    has_override config =
        not (is_empty (or_default [] config.metrics_endpoint))
        || not (is_empty (or_default [] config.logs_endpoint))
        || not (is_empty (or_default [] config.traces_endpoint))

    -- The checks of `create` up to the channel: its target and whether it is plaintext. `installed` says
    -- whether grpcio can be imported.
    unfoldable pub open_grpc : Bool → OtlpConfig F → Encoder F → Result (Str × Bool)
    unfolding target has_override
    open_grpc installed config encoder =
        reject_if (not (str_eq encoder.content_type (text "application/x-protobuf")))
          (text "OTLP over gRPC has no JSON encoding; use the protobuf encoder")
        >> reject_if (not installed) (
            text
              "the gRPC transport needs the optional extra: pip install 'asyncio-otlp-client[grpc]'")
        >> reject_if (not (target config.endpoint config.insecure).1 && config.insecure_skip_verify)
            (text
              "insecure_skip_verify is not supported over gRPC: grpcio provides no way to disable certificate verification. Use certificate_file to trust a self-signed CA, or switch to an http:// endpoint.")
        >> reject_if (has_override config) (
            text
              "per-signal endpoint overrides (metrics_endpoint/logs_endpoint/traces_endpoint) are not supported over gRPC: a single gRPC channel targets one host and the signal is already selected by the RPC method path. Use separate OTLPClient instances (one per signal, each with its own endpoint) if you need this.")
        >> ok (target config.endpoint config.insecure)

    -- A channel to an https endpoint is opened with TLS, whatever `insecure` says, and never for a
    -- configuration that skips the verification of certificates.
    pub open_grpc-https :
        (installed : Bool) (config : OtlpConfig F) (encoder : Encoder F) (host : Str)
        (plaintext : Bool)
        → scheme (parsed_endpoint config.endpoint) ≡ text "https"
        → open_grpc installed config encoder ≡ ok (host, plaintext)
        → (plaintext ≡ false) × (config.insecure_skip_verify ≡ false)
    unfolding open_grpc
    open_grpc-https installed config encoder host plaintext secure opened =
        ground (arith, target-https config.endpoint config.insecure secure)
