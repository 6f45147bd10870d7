-- ===== src/Client/Defs.antt =====
-- src/otlp_client/client.py: the client, the headers of a request, and one attempt of an export.
use asyncio_otlp_client.Base.{
  ℕ, ◌++◌, Bool, true, ◌&&◌, not, Option, none, some, Str, text, decimal, if◌then◌else◌, or_default,
  Exc, transport_error, ok,
}
use asyncio_otlp_client.Base.Dict.{merge}
use asyncio_otlp_client.Effects.{Eff, pure, raise, ◌>>=◌, ◌>>◌, try_}
use asyncio_otlp_client.Signals.{SignalKind}
use asyncio_otlp_client.Outcomes.{ExportOutcome, retryable, is_credential_rejection}
use asyncio_otlp_client.Config.Defs.{OtlpConfig, Headers, headers_for}
use asyncio_otlp_client.Retry.Defs.{RetryPolicy, Hooks}
use asyncio_otlp_client.Model.Common.{Bytes, Resource, InstrumentationScope, empty_resource, end}
use asyncio_otlp_client.Client.Seams.{Encoder, Transport, CredentialProvider}

-- `RetryPolicy.from_config`
unfoldable pub policy_from_config : {F : Type 0} → OtlpConfig F → RetryPolicy F
policy_from_config c = record {
  initial_backoff = c.initial_backoff;
  max_backoff = c.max_backoff;
  multiplier = c.backoff_multiplier;
  max_elapsed = c.max_elapsed;
}

pub record OtlpClient (W F : Type 0) : Type 0 where
  pub config : OtlpConfig F
  pub transport : Transport W F
  pub encoder : Encoder F
  pub credentials : Option (CredentialProvider W)
  pub scope : InstrumentationScope F
  pub policy : RetryPolicy F
  pub hooks : Hooks W F

-- `DEFAULT_SCOPE`
unfoldable pub default_scope : {F : Type 0} → InstrumentationScope F
default_scope = record {
  name = text "otlp_client";
  version = some (text "0.5.0");
  attributes = end;
}

module _ {W F : Type 0} where
  -- `OTLPClient.__init__`; `random.random` is the jitter of the hooks
  unfoldable pub new_client :
      OtlpConfig F
      → Transport W F
      → Encoder F
      → Option (CredentialProvider W)
      → Option (InstrumentationScope F)
      → Option (RetryPolicy F)
      → Hooks W F
      → OtlpClient W F
  unfolding default_scope policy_from_config
  new_client config transport encoder credentials scope policy hooks = record {
    config = config;
    transport = transport;
    encoder = encoder;
    credentials = credentials;
    scope = or_default default_scope scope;
    policy = or_default (policy_from_config config) policy;
    hooks = hooks;
  }

  -- the property `resource`
  unfoldable pub resource : OtlpClient W F → Resource F
  resource client = or_default empty_resource client.config.resource

  -- `_headers`
  unfoldable pub request_headers : OtlpClient W F → SignalKind → Eff W Headers
  request_headers client kind =
      let static = headers_for client.config kind in
      elim client.credentials [
        | none ↦ pure static
        | some provider ↦ provider.headers kind >>= λ extra. pure (merge static extra)
      ]

-- What `resolve` returns: `Mapping[str, str] | ExportOutcome`.
pub data Resolved (F : Type 0) : Type 0 where
  headers_ready : Headers → Resolved F
  gave_up : ExportOutcome F → Resolved F

-- The world of `_export`: beside `W` the flag `reauthed` of its closures.
abbrev pub Exporting : Type 0 → Type 0
Exporting W = W × Bool

abbrev pub lift : {W A : Type 0} → Eff W A → Eff (Exporting W) A
lift m (w, reauthed) = let (r, w') = m w in (r, (w', reauthed))

abbrev pub lift_hooks : {W F : Type 0} → Hooks W F → Hooks (Exporting W) F
lift_hooks hooks = record {
  sleep = λ d. lift (hooks.sleep d);
  monotonic = lift (hooks.monotonic);
  jitter = lift (hooks.jitter);
}

-- `{outcome.status}` in a message
unfoldable pub status_text : Option ℕ → Str
status_text none = text "None"
status_text (some s) = decimal s

module _ {W F : Type 0} (client : OtlpClient W F) where
  -- the `except OTLPTransportError` of `resolve`
  unfoldable pub provider_failed : Exc → Eff W (Resolved F)
  provider_failed (transport_error m) =
      pure (gave_up (retryable none (text "credential provider failed: " ++ m) none))
  provider_failed exc = raise exc

  unfoldable pub resolve : SignalKind → Eff W (Resolved F)
  unfolding request_headers provider_failed
  resolve kind = try_ (request_headers client kind) (λ h. pure (headers_ready h)) provider_failed

  -- a send once the headers are resolved
  unfoldable pub send_with : SignalKind → Bytes → Resolved F → Eff W (ExportOutcome F)
  send_with kind payload (headers_ready h) = client.transport.send kind payload h
  send_with kind payload (gave_up outcome) = pure outcome

  unfoldable pub resolve_and_send : SignalKind → Bytes → Eff W (ExportOutcome F)
  unfolding resolve send_with
  resolve_and_send kind payload = resolve kind >>= send_with kind payload

  -- `reauthed = True`, and the second send of an attempt
  unfoldable pub send_again :
      SignalKind → Bytes → CredentialProvider W → Eff (Exporting W) (ExportOutcome F)
  unfolding resolve_and_send
  send_again kind payload provider (w, reauthed) =
      (lift (provider.invalidate kind) >> lift (resolve_and_send kind payload)) (w, true)

  -- `if not reauthed and self._credentials is not None and is_credential_rejection(outcome)`
  unfoldable pub reauthenticate_by :
      Option (CredentialProvider W)
      → SignalKind
      → Bytes
      → ExportOutcome F
      → Eff (Exporting W) (ExportOutcome F)
  unfolding send_again
  reauthenticate_by none kind payload outcome (w, reauthed) = (ok outcome, (w, reauthed))
  reauthenticate_by (some provider) kind payload outcome (w, reauthed) =
      if not reauthed && is_credential_rejection outcome
      then send_again kind payload provider (w, reauthed)
      else (ok outcome, (w, reauthed))

  unfoldable pub reauthenticate :
      SignalKind → Bytes → ExportOutcome F → Eff (Exporting W) (ExportOutcome F)
  unfolding reauthenticate_by
  reauthenticate kind payload outcome = reauthenticate_by client.credentials kind payload outcome

  -- the first send of an attempt, which ends the attempt if the headers were not resolved
  unfoldable pub send_first : SignalKind → Bytes → Resolved F → Eff (Exporting W) (ExportOutcome F)
  unfolding reauthenticate
  send_first kind payload (headers_ready h) =
      lift (client.transport.send kind payload h) >>= reauthenticate kind payload
  send_first kind payload (gave_up outcome) = pure outcome

  unfoldable pub attempt : SignalKind → Bytes → Eff (Exporting W) (ExportOutcome F)
  unfolding resolve send_first
  attempt kind payload = lift (resolve kind) >>= send_first kind payload
