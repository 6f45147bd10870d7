-- ===== src/Client/Reauth.antt =====
-- One re-authentication in an export, however many attempts it makes.
use asyncio_otlp_client.Base.{
  ℕ, ◌+◌, ◌≤◌, ◌≡◌, refl, Bool, true, false, Option, none, some, Exc, transport_error, arith, ◌∙◌,
  if◌then◌else◌, Option-cases, inl, inr, ok, raised, stuck, Result,
}
use asyncio_otlp_client.Effects.{Eff, pure, ◌>>=◌, continue_with}
use asyncio_otlp_client.Effects.Keeps.{Keeps, bind_at, Keeps-bind, Keeps-try}
use asyncio_otlp_client.Floats.{Floats}
use asyncio_otlp_client.Signals.{SignalKind}
use asyncio_otlp_client.Outcomes.{ExportOutcome, all_accepted, is_credential_rejection}
use asyncio_otlp_client.Config.Defs.{Headers, headers_for}
use asyncio_otlp_client.Base.Dict.{merge}
use asyncio_otlp_client.Retry.Keeps.{with_retry-Keeps}
use asyncio_otlp_client.Model.Common.{Bytes}
use asyncio_otlp_client.Client.Seams.{CredentialProvider, Envelopes, no_data, kind_of}
use asyncio_otlp_client.Client.Defs.{
  OtlpClient, Exporting, Resolved, headers_ready, gave_up, lift, lift_hooks, request_headers,
  provider_failed, resolve, send_with, resolve_and_send, send_again, reauthenticate_by,
  reauthenticate, send_first, attempt,
}
use asyncio_otlp_client.Client.Exports.{deliver, export_payload, export}

-- `count` is the number of calls of `invalidate` that the world has seen.
pub record IsCounted {W F : Type 0} (client : OtlpClient W F) (count : W → ℕ) : Type 0 where
  pub send_count :
      (kind : SignalKind) (payload : Bytes) (h : Headers) (w : W)
      → count (client.transport.send kind payload h w).1 ≡ count w
  pub headers_count :
      (provider : CredentialProvider W) (kind : SignalKind) (w : W)
      → client.credentials ≡ some provider
      → count (provider.headers kind w).1 ≡ count w
  pub invalidate_count :
      (provider : CredentialProvider W) (kind : SignalKind) (w : W)
      → client.credentials ≡ some provider
      → count (provider.invalidate kind w).1 ≡ count w + 1
  pub sleep_count : (d : F) (w : W) → count (client.hooks.sleep d w).1 ≡ count w
  pub clock_count : (w : W) → count (client.hooks.monotonic w).1 ≡ count w
  pub jitter_count : (w : W) → count (client.hooks.jitter w).1 ≡ count w

module _ {W F : Type 0} (client : OtlpClient W F) (count : W → ℕ) (counted : IsCounted client count)
    (base : ℕ) where
  -- The flag `reauthed` tells whether the one call was made.
  abbrev Counted : Exporting W → Type 0
  Counted (w, reauthed) = count w ≡ base + (if reauthed then 1 else 0)

  abbrev Same : {A : Type 0} → Eff W A → Type 0
  Same m = (n : ℕ) → Keeps (λ w. count w ≡ n) m

  lift-Counted : {A : Type 0} (m : Eff W A) → Same m → Keeps Counted (lift m)
  lift-Counted m h (w, reauthed) p = h _ w p

  request_headers-Same : (kind : SignalKind) → Same (request_headers client kind)
  unfolding request_headers
  request_headers-Same kind n = elim (Option-cases client.credentials) [
    | inl e ↦ λ w p. rw e p
    | inr (provider, e) ↦ λ w p. rw e (
        Keeps-bind (λ w. count w ≡ n) (provider.headers kind)
          (λ extra. pure (merge (headers_for client.config kind) extra))
          (λ w p. counted.headers_count provider kind w e ∙ p) (λ extra w p. p) w p)
  ]

  provider_failed-Same : (exc : Exc) → Same (provider_failed client exc)
  unfolding provider_failed
  provider_failed-Same (transport_error m) n = λ w p. p
  provider_failed-Same exc n = λ w p. p

  resolve-Same : (kind : SignalKind) → Same (resolve client kind)
  unfolding resolve
  resolve-Same kind n =
      Keeps-try _ (request_headers client kind) (λ h. pure (headers_ready h))
        (provider_failed client) (request_headers-Same kind n) (λ h w p. p)
        (λ e. provider_failed-Same e n)

  send_with-Same :
      (kind : SignalKind) (payload : Bytes) (r : Resolved F)
      → Same (send_with client kind payload r)
  unfolding send_with
  send_with-Same kind payload (headers_ready h) n w p = counted.send_count kind payload h w ∙ p
  send_with-Same kind payload (gave_up o) n w p = p

  resolve_and_send-Same :
      (kind : SignalKind) (payload : Bytes) → Same (resolve_and_send client kind payload)
  unfolding resolve_and_send
  resolve_and_send-Same kind payload n =
      Keeps-bind _ (resolve client kind) (send_with client kind payload) (resolve-Same kind n)
        (λ r. send_with-Same kind payload r n)

  -- The second send of an attempt takes the one call that is left.
  send_again-Counted :
      (kind : SignalKind) (payload : Bytes) (provider : CredentialProvider W)
      → client.credentials ≡ some provider
      → (w : W) → Counted (w, false)
      → Counted (send_again client kind payload provider (w, false)).1
  unfolding send_again
  send_again-Counted kind payload provider e w p =
      bind_at Counted (lift (provider.invalidate kind))
        (λ u. lift (resolve_and_send client kind payload)) (w, true)
        (omega (arith, counted.invalidate_count provider kind w e))
        (λ u.
          lift-Counted (resolve_and_send client kind payload) (resolve_and_send-Same kind payload))

  choose-Counted :
      {A : Type 0} (b : Bool) (s t : A × Exporting W)
      → Counted s.1
      → Counted t.1
      → Counted (if b then s else t).1
  choose-Counted true s t h k = h
  choose-Counted false s t h k = k

  reauthenticate_by-Counted :
      (o : Option (CredentialProvider W)) (kind : SignalKind) (payload : Bytes)
      (outcome : ExportOutcome F)
      → client.credentials ≡ o
      → Keeps Counted (reauthenticate_by client o kind payload outcome)
  unfolding reauthenticate_by
  reauthenticate_by-Counted none kind payload outcome e (w, reauthed) p = p
  reauthenticate_by-Counted (some provider) kind payload outcome e (w, true) p = p
  reauthenticate_by-Counted (some provider) kind payload outcome e (w, false) p =
      choose-Counted (is_credential_rejection outcome)
        (send_again client kind payload provider (w, false)) (ok outcome, (w, false))
        (send_again-Counted kind payload provider e w p) p

  reauthenticate-Counted :
      (kind : SignalKind) (payload : Bytes) (o : ExportOutcome F)
      → Keeps Counted (reauthenticate client kind payload o)
  unfolding reauthenticate
  reauthenticate-Counted kind payload o =
      reauthenticate_by-Counted client.credentials kind payload o refl

  send_first-Counted :
      (kind : SignalKind) (payload : Bytes) (r : Resolved F)
      → Keeps Counted (send_first client kind payload r)
  unfolding send_first
  send_first-Counted kind payload (headers_ready h) =
      Keeps-bind Counted (lift (client.transport.send kind payload h))
        (reauthenticate client kind payload)
        (lift-Counted (client.transport.send kind payload h)
          (λ n w p. counted.send_count kind payload h w ∙ p))
        (reauthenticate-Counted kind payload)
  send_first-Counted kind payload (gave_up o) = λ w p. p

  attempt-Counted :
      (kind : SignalKind) (payload : Bytes) → Keeps Counted (attempt client kind payload)
  unfolding attempt
  attempt-Counted kind payload =
      Keeps-bind Counted (lift (resolve client kind)) (send_first client kind payload)
        (lift-Counted (resolve client kind) (resolve-Same kind)) (send_first-Counted kind payload)

module _ (R : Floats) {W : Type 0} (client : OtlpClient W (R.F)) (count : W → ℕ)
    (counted : IsCounted client count) (fuel : ℕ) where
  open R use {F}

  deliver-Counted :
      (base : ℕ) (kind : SignalKind) (payload : Bytes)
      → Keeps (Counted client count counted base) (deliver R client fuel kind payload)
  unfolding deliver
  deliver-Counted base kind payload =
      with_retry-Keeps R client.policy (lift_hooks client.hooks) (Counted client count counted base)
        (λ d.
          lift-Counted client count counted base (client.hooks.sleep d)
            (λ n w p. counted.sleep_count d w ∙ p))
        (lift-Counted client count counted base (client.hooks.monotonic)
          (λ n w p. counted.clock_count w ∙ p))
        (lift-Counted client count counted base (client.hooks.jitter)
          (λ n w p. counted.jitter_count w ∙ p))
        (attempt client kind payload) (attempt-Counted client count counted base kind payload) fuel

  export_payload-count :
      (kind : SignalKind) (payload : Bytes) (w : W)
      → count (export_payload R client fuel kind payload w).1 ≤ count w + 1
  unfolding export_payload
  export_payload-count kind payload w =
      let (w', reauthed) = (deliver R client fuel kind payload (w, false)).1 in
      ground (arith, deliver-Counted (count w) kind payload (w, false) (omega arith))

  encoded-count :
      (r : Result Bytes) (kind : SignalKind) (w : W)
      → count (continue_with r (export_payload R client fuel kind) w).1 ≤ count w + 1
  encoded-count (ok payload) kind w = export_payload-count kind payload w
  encoded-count (raised e) kind w = omega arith
  encoded-count stuck kind w = omega arith

  choose-count :
      {A : Type 0} (b : Bool) (m n : Eff W A) (w : W)
      → count (m w).1 ≤ count w + 1
      → count (n w).1 ≤ count w + 1
      → count ((if b then m else n) w).1 ≤ count w + 1
  choose-count true m n w h k = h
  choose-count false m n w h k = k

  -- If none of the other callables calls `invalidate`, an export calls it at most once, whatever the
  -- collector answers, however many attempts are made, and however the export ends.
  pub export_invalidates_once :
      (envelopes : Envelopes F) (w : W) → count (export R client fuel envelopes w).1 ≤ count w + 1
  unfolding export
  export_invalidates_once envelopes w =
      choose-count (no_data envelopes) (pure all_accepted)
        ((λ w'. (client.encoder.encode envelopes, w'))
          >>= export_payload R client fuel (kind_of envelopes))
        w (omega arith) (encoded-count (client.encoder.encode envelopes) (kind_of envelopes) w)
