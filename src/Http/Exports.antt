-- ===== src/Http/Exports.antt =====
-- An export of a client over HTTP that has no credential provider.
use asyncio_otlp_client.Base.{
  ℕ, suc, ◌≡◌, refl, Bool, true, false, Option, none, some, ok, raised, permanent_error, ◌∙◌, ◌&&◌,
  ◌||◌, ◌==◌, leb, ◌++◌, Str, text, decimal, take, arith,
}
use asyncio_otlp_client.Effects.{bind-ok}
use asyncio_otlp_client.Floats.{Floats}
use asyncio_otlp_client.Signals.{SignalKind, kind_name}
use asyncio_otlp_client.Outcomes.{ExportOutcome, success, permanent, all_accepted}
use asyncio_otlp_client.Config.Defs.{OtlpConfig, headers_for, Headers}
use asyncio_otlp_client.Retry.Defs.{RetryPolicy, Hooks, is_retryable_status}
use asyncio_otlp_client.Model.Common.{Bytes, InstrumentationScope}
use asyncio_otlp_client.Client.Seams.{Encoder, Envelopes, kind_of, no_data}
use asyncio_otlp_client.Client.Defs.{OtlpClient, new_client, status_text}
use asyncio_otlp_client.Client.Exports.{export, conclude}
use asyncio_otlp_client.Client.Requests.{export_plain}
use asyncio_otlp_client.Http.Replies.{is_taken, is_retried}
use asyncio_otlp_client.Http.Defs.{
  Reply, answered, Libraries, is_success_status, accepted_outcome, http_request, reply_message,
  decoded, classify, http_send, http_transport,
}

-- The statuses of the code are those of the protocol.
taken_status : (s : ℕ) → (leb 200 s && leb s 299) ≡ true → is_success_status s ≡ true
taken_status s h = ground arith

other_status : (s : ℕ) → (leb 200 s && leb s 299) ≡ false → is_success_status s ≡ false
other_status s h = ground arith

final_status :
    (s : ℕ) → (s == 429 || s == 502 || s == 503 || s == 504) ≡ false → is_retryable_status s ≡ false
unfolding is_retryable_status
final_status s h = h

module _ (R : Floats) {W : Type 0} (L : Libraries W (R.F)) (config : OtlpConfig (R.F))
    (encoder : Encoder (R.F)) where
  open R use {F}

  taken_reply :
      (kind : SignalKind) (status : ℕ) (raw header : Bytes) (w : W)
      → is_success_status status ≡ true
      → encoder.decode_response kind raw ≡ ok none
      → classify R L config encoder kind (answered status raw header) w ≡ (ok success, w)
  unfolding classify decoded accepted_outcome
  taken_reply kind status raw header w h d = rw (h, d) refl

  refused_reply :
      (kind : SignalKind) (status : ℕ) (raw header : Bytes) (w : W)
      → is_success_status status ≡ false
      → is_retryable_status status ≡ false
      → classify R L config encoder kind (answered status raw header) w
        ≡ (ok (permanent (some status) (reply_message R L config encoder raw)), w)
  unfolding classify
  refused_reply kind status raw header w h n = rw (h, n) refl

  posted-send :
      (kind : SignalKind) (payload : Bytes) (headers : Headers) (reply : Reply)
      (o : ExportOutcome F) (w w₁ w₂ : W)
      → L.post (http_request R L config encoder kind payload headers) w ≡ (ok reply, w₁)
      → classify R L config encoder kind reply w₁ ≡ (ok o, w₂)
      → http_send R L config encoder kind payload headers w ≡ (ok o, w₂)
  unfolding http_send
  posted-send kind payload headers reply o w w₁ w₂ posted e =
      bind-ok (L.post (http_request R L config encoder kind payload headers))
        (classify R L config encoder kind) posted
      ∙ e

  module _ (owns_session : Bool) (scope : Option (InstrumentationScope F))
      (policy : Option (RetryPolicy F)) (hooks : Hooks W F) where
    -- The client that has this transport and no credential provider.
    abbrev pub http_client : OtlpClient W F
    http_client =
        new_client config (http_transport R L config encoder owns_session) encoder none scope policy
          hooks

    -- the text of the error for a status that is final
    abbrev pub rejection : SignalKind → ℕ → Bytes → Str
    rejection kind status raw =
        text "collector rejected "
        ++ (kind_name kind
            ++ (text " (status "
                ++ (decimal status ++ (text "): " ++ take 512 (L.decode_utf8 raw)))))

    -- Without a credential provider, an export over HTTP of data that can be encoded, whose request is
    -- answered, ends after that request unless the status is 429, 502, 503 or 504. A status from 200 to
    -- 299 with no partial success returns that all was accepted; any other raises the permanent error
    -- whose message names the signal and the status and has the start of the response.
    pub export_http :
        (fuel : ℕ) (envelopes : Envelopes F) (payload : Bytes) (started : F) (status : ℕ)
        (raw header : Bytes) (w w₁ w₂ : W)
        → no_data envelopes ≡ false
        → encoder.encode envelopes ≡ ok payload
        → hooks.monotonic w ≡ (ok started, w₁)
        → L.post
            (http_request R L config encoder
              (kind_of envelopes)
              payload
              (headers_for config (kind_of envelopes)))
            w₁
          ≡ (ok (answered status raw header), w₂)
        → (is_taken (answered status raw header) ≡ true
            → encoder.decode_response (kind_of envelopes) raw ≡ ok none
            → export R http_client (suc fuel) envelopes w ≡ (ok all_accepted, w₂))
          × (is_taken (answered status raw header) ≡ false
              → is_retried (answered status raw header) ≡ false
              → export R http_client (suc fuel) envelopes w
                ≡ (raised (permanent_error (rejection (kind_of envelopes) status raw)), w₂))
    unfolding new_client http_transport conclude status_text reply_message
    export_http fuel envelopes payload started status raw header w w₁ w₂ data_given encoded clock
          posted =
        let kind = kind_of envelopes in
        let headers = headers_for config kind in
        (
          λ taken plain.
              export_plain R http_client fuel envelopes payload started success w w₁ w₂ data_given
                refl encoded clock
                (posted-send kind payload headers (answered status raw header) success w₁ w₂ w₂
                  posted (taken_reply kind status raw header w₂ (taken_status status taken) plain))
                refl,
          λ other final.
              export_plain R http_client fuel envelopes payload started _ w w₁ w₂ data_given refl
                encoded clock
                (posted-send kind payload headers (answered status raw header) _ w₁ w₂ w₂ posted (
                  refused_reply kind status raw header w₂ (other_status status other)
                    (final_status status final)))
                refl,
        )
