-- ===== src/Client/Requests.antt =====
-- The headers of a request, and exports that end with their first attempt.
use asyncio_otlp_client.Base.{
  ℕ, suc, ◌≡◌, refl, Bool, true, false, Option, none, some, Str, Result, ok, ap, ◌∙◌,
}
use asyncio_otlp_client.Base.Dict.{lookup, merge, last_value, lookup-merge}
use asyncio_otlp_client.Effects.{Eff, bind-ok, try-ok}
use asyncio_otlp_client.Floats.{Floats}
use asyncio_otlp_client.Signals.{SignalKind}
use asyncio_otlp_client.Outcomes.{ExportOutcome, Accepted, is_credential_rejection}
use asyncio_otlp_client.Config.Defs.{Headers, headers_for}
use asyncio_otlp_client.Retry.Returns.{is_final, with_retry_first}
use asyncio_otlp_client.Model.Common.{Bytes}
use asyncio_otlp_client.Client.Seams.{CredentialProvider, Envelopes, no_data, kind_of}
use asyncio_otlp_client.Client.Defs.{
  OtlpClient, Exporting, lift, lift_hooks, request_headers, headers_ready, resolve, send_with,
  resolve_and_send, send_again, reauthenticate_by, reauthenticate, send_first, attempt,
}
use asyncio_otlp_client.Client.Exports.{conclude, conclude_result, deliver, export_payload, export}

abbrev concluded :
    {W F : Type 0} → SignalKind → Result (ExportOutcome F) × Exporting W → Result Accepted × W
concluded kind r = (conclude_result kind r.0, r.1.0)

abbrev lifted : {W A : Type 0} → Bool → Result A × W → Result A × Exporting W
lifted flag r = (r.0, (r.1, flag))

module _ {W F : Type 0} (client : OtlpClient W F) where
  -- With a provider, a header is the provider's if it gives that key, by its last value for it, and
  -- the configured one otherwise: a provider replaces a configured header and removes none.
  pub request_headers-lookup :
      (provider : CredentialProvider W) (kind : SignalKind) (extra : Headers) (w w' : W)
      → client.credentials ≡ some provider
      → provider.headers kind w ≡ (ok extra, w')
      → (h : Headers) × (request_headers client kind w ≡ (ok h, w'))
        × ((key : Str)
            → lookup key h ≡ elim (last_value key extra) [
              | some v ↦ some v
              | none ↦ lookup key (headers_for client.config kind)
            ])
  unfolding request_headers
  request_headers-lookup provider kind extra w w' e h = (
    merge (headers_for client.config kind) extra,
    rw (e, request_headers) (rw h),
    λ key. lookup-merge key (headers_for client.config kind) extra,
  )

  lift-ok :
      {A : Type 0} (m : Eff W A) (a : A) (w w' : W) (flag : Bool)
      → m w ≡ (ok a, w')
      → lift m (w, flag) ≡ (ok a, (w', flag))
  lift-ok {A} m a w w' flag h = ap (λ (r : Result A × W). lifted flag r) h

  -- A provider is asked for headers, and they are merged; without one the configured ones are sent.
  resolve-ok :
      (kind : SignalKind) (h : Headers) (w w' : W)
      → request_headers client kind w ≡ (ok h, w')
      → resolve client kind w ≡ (ok (headers_ready h), w')
  unfolding resolve
  resolve-ok kind h w w' e = try-ok (request_headers client kind) _ _ e

  plain_headers :
      (kind : SignalKind) (w : W)
      → client.credentials ≡ none
      → request_headers client kind w ≡ (ok (headers_for client.config kind), w)
  unfolding request_headers
  plain_headers kind w e = rw (e, request_headers) refl

  -- An attempt up to the question of re-authentication.
  attempt_sent :
      (kind : SignalKind) (payload : Bytes) (h : Headers) (o : ExportOutcome F) (w w₁ w₂ : W)
      (flag : Bool)
      → request_headers client kind w ≡ (ok h, w₁)
      → client.transport.send kind payload h w₁ ≡ (ok o, w₂)
      → attempt client kind payload (w, flag)
        ≡ reauthenticate_by client client.credentials kind payload o (w₂, flag)
  unfolding attempt reauthenticate
  attempt_sent kind payload h o w w₁ w₂ flag e sent =
      bind-ok (lift (resolve client kind)) (send_first client kind payload)
        (lift-ok (resolve client kind) _ w w₁ flag (resolve-ok kind h w w₁ e))
      ∙ bind-ok (lift (client.transport.send kind payload h)) (reauthenticate client kind payload)
          (lift-ok (client.transport.send kind payload h) o w₁ w₂ flag sent)

  no_provider :
      (credentials : Option (CredentialProvider W)) (kind : SignalKind) (payload : Bytes)
      (o : ExportOutcome F) (s : Exporting W)
      → credentials ≡ none
      → reauthenticate_by client credentials kind payload o s ≡ (ok o, s)
  unfolding reauthenticate_by
  no_provider none kind payload o s e = refl
  no_provider (some p) kind payload o s e = cc

  resent :
      (kind : SignalKind) (payload : Bytes) (o : ExportOutcome F) (h : Headers) (w₁ w₂ w₃ : W)
      → request_headers client kind w₁ ≡ (ok h, w₂)
      → client.transport.send kind payload h w₂ ≡ (ok o, w₃)
      → resolve_and_send client kind payload w₁ ≡ (ok o, w₃)
  unfolding resolve_and_send send_with
  resent kind payload o h w₁ w₂ w₃ g sent =
      bind-ok (resolve client kind) (send_with client kind payload) (resolve-ok kind h w₁ w₂ g)
      ∙ sent

  second_send :
      (provider : CredentialProvider W) (kind : SignalKind) (payload : Bytes) (o : ExportOutcome F)
      (h : Headers) (w w₁ w₂ w₃ : W)
      → provider.invalidate kind w ≡ (ok tt, w₁)
      → request_headers client kind w₁ ≡ (ok h, w₂)
      → client.transport.send kind payload h w₂ ≡ (ok o, w₃)
      → send_again client kind payload provider (w, false) ≡ (ok o, (w₃, true))
  unfolding send_again
  second_send provider kind payload o h w w₁ w₂ w₃ i g sent =
      bind-ok (lift (provider.invalidate kind)) (λ u. lift (resolve_and_send client kind payload))
        (lift-ok (provider.invalidate kind) tt w w₁ true i)
      ∙ lift-ok (resolve_and_send client kind payload) o w₁ w₃ true
          (resent kind payload o h w₁ w₂ w₃ g sent)

  -- An attempt whose first send is rejected for its credentials, with a provider that was not asked
  -- to invalidate them yet.
  attempt_again :
      (credentials : Option (CredentialProvider W)) (provider : CredentialProvider W)
      (kind : SignalKind) (payload : Bytes) (refused o : ExportOutcome F) (h : Headers)
      (w w₁ w₂ w₃ : W)
      → credentials ≡ some provider
      → is_credential_rejection refused ≡ true
      → provider.invalidate kind w ≡ (ok tt, w₁)
      → request_headers client kind w₁ ≡ (ok h, w₂)
      → client.transport.send kind payload h w₂ ≡ (ok o, w₃)
      → reauthenticate_by client credentials kind payload refused (w, false) ≡ (ok o, (w₃, true))
  unfolding reauthenticate_by
  attempt_again none provider kind payload refused o h w w₁ w₂ w₃ e r i g sent = cc
  attempt_again (some p) provider kind payload refused o h w w₁ w₂ w₃ e r i g sent =
      let same : p ≡ provider = cc in
      rw r (
        second_send p kind payload o h w w₁ w₂ w₃
          (ap (λ (q : CredentialProvider W). q.invalidate kind w) same ∙ i) g sent)

module _ (R : Floats) {W : Type 0} (client : OtlpClient W (R.F)) (fuel : ℕ) where
  open R use {F}

  delivered :
      (kind : SignalKind) (payload : Bytes) (o : ExportOutcome F) (w w₂ : W) (flag : Bool)
      → deliver R client (suc fuel) kind payload (w, false) ≡ (ok o, (w₂, flag))
      → export_payload R client (suc fuel) kind payload w ≡ (conclude kind o, w₂)
  unfolding export_payload
  delivered kind payload o w w₂ flag e =
      ap (λ (r : Result (ExportOutcome F) × Exporting W). concluded kind r) e

  -- An export of data that ends with its first attempt.
  export_first :
      (envelopes : Envelopes F) (payload : Bytes) (started : F) (o : ExportOutcome F) (w w₁ w₂ : W)
      (flag : Bool)
      → no_data envelopes ≡ false
      → client.encoder.encode envelopes ≡ ok payload
      → client.hooks.monotonic w ≡ (ok started, w₁)
      → is_final o ≡ true
      → attempt client (kind_of envelopes) payload (w₁, false) ≡ (ok o, (w₂, flag))
      → export R client (suc fuel) envelopes w ≡ (conclude (kind_of envelopes) o, w₂)
  unfolding export
  export_first envelopes payload started o w w₁ w₂ flag some_data encoded clock final tried =
      rw (some_data, encoded)
        (delivered (kind_of envelopes) payload o w w₂ flag (
          with_retry_first R client.policy (lift_hooks client.hooks)
            (attempt client (kind_of envelopes) payload) fuel started o (w, false) (w₁, false)
            (w₂, flag) final (lift-ok client client.hooks.monotonic started w w₁ false clock)
            tried))

  -- Without a credential provider, an export of data whose first send ends in a success, a partial
  -- success or a permanent failure makes that one send, with the configured headers, and returns or
  -- raises what the outcome says; a rejection of the credentials is raised as any other.
  pub export_plain :
      (envelopes : Envelopes F) (payload : Bytes) (started : F) (o : ExportOutcome F) (w w₁ w₂ : W)
      → no_data envelopes ≡ false
      → client.credentials ≡ none
      → client.encoder.encode envelopes ≡ ok payload
      → client.hooks.monotonic w ≡ (ok started, w₁)
      → client.transport.send
          (kind_of envelopes)
          payload
          (headers_for client.config (kind_of envelopes))
          w₁
        ≡ (ok o, w₂)
      → is_final o ≡ true
      → export R client (suc fuel) envelopes w ≡ (conclude (kind_of envelopes) o, w₂)
  export_plain envelopes payload started o w w₁ w₂ some_data plain encoded clock sent final =
      let kind = kind_of envelopes in
      export_first envelopes payload started o w w₁ w₂ false some_data encoded clock final (
        attempt_sent client kind payload (headers_for client.config kind) o w₁ w₁ w₂ false
          (plain_headers client kind w₁ plain) sent
        ∙ no_provider client client.credentials kind payload o (w₂, false) plain)

  -- With a provider, an export whose first send is rejected for its credentials invalidates them,
  -- resolves the headers anew and sends once more, with no sleep between; the outcome of the second
  -- send decides, if it is not retryable.
  pub export_reauthenticates :
      (envelopes : Envelopes F) (payload : Bytes) (started : F) (provider : CredentialProvider W)
      (h₁ h₂ : Headers) (refused o : ExportOutcome F) (w w₁ w₂ w₃ w₄ w₅ w₆ : W)
      → no_data envelopes ≡ false
      → client.credentials ≡ some provider
      → client.encoder.encode envelopes ≡ ok payload
      → client.hooks.monotonic w ≡ (ok started, w₁)
      → request_headers client (kind_of envelopes) w₁ ≡ (ok h₁, w₂)
      → client.transport.send (kind_of envelopes) payload h₁ w₂ ≡ (ok refused, w₃)
      → is_credential_rejection refused ≡ true
      → provider.invalidate (kind_of envelopes) w₃ ≡ (ok tt, w₄)
      → request_headers client (kind_of envelopes) w₄ ≡ (ok h₂, w₅)
      → client.transport.send (kind_of envelopes) payload h₂ w₅ ≡ (ok o, w₆)
      → is_final o ≡ true
      → export R client (suc fuel) envelopes w ≡ (conclude (kind_of envelopes) o, w₆)
  export_reauthenticates envelopes payload started provider h₁ h₂ refused o w w₁ w₂ w₃ w₄ w₅ w₆
        some_data given encoded clock r₁ s₁ rejected inv r₂ s₂ final =
      let kind = kind_of envelopes in
      export_first envelopes payload started o w w₁ w₆ true some_data encoded clock final (
        attempt_sent client kind payload h₁ refused w₁ w₂ w₃ false r₁ s₁
        ∙ attempt_again client client.credentials provider kind payload refused o h₂ w₃ w₄ w₅ w₆
            given rejected inv r₂ s₂)
