-- ===== src/Http/Replies.antt =====
-- The outcome of a send over HTTP, by the status of the response, and what an export makes of it.
use asyncio_otlp_client.Base.{
  ℕ, ◌≡◌, refl, Bool, true, false, not, ◌==◌, ◌||◌, ◌&&◌, leb, Option, none, some, Str, arith, ok,
  raised, stuck, Result, if◌then◌else◌, Option-cases, inl, inr, [], ◌∷◌, sym, subst, ◌∙◌,
}
use asyncio_otlp_client.Base.Int.{pos}
use asyncio_otlp_client.Effects.{Eff, pure, ◌>>=◌, bind-ok}
use asyncio_otlp_client.Effects.Hoare.{Ensures, Ensures-bind}
use asyncio_otlp_client.Floats.{Floats, IsOrder}
use asyncio_otlp_client.Signals.{SignalKind}
use asyncio_otlp_client.Outcomes.{
  PartialSuccess, ExportOutcome, success, partial_success, retryable, permanent,
  is_credential_rejection, is_auth_status,
}
use asyncio_otlp_client.Config.Defs.{OtlpConfig, Headers}
use asyncio_otlp_client.Retry.Defs.{is_retryable_status, parse_retry_after}
use asyncio_otlp_client.Retry.Parse.{parse_retry_after-not_negative}
use asyncio_otlp_client.Retry.Returns.{is_final, any_exc}
use asyncio_otlp_client.Model.Common.{Bytes}
use asyncio_otlp_client.Client.Seams.{Encoder}
use asyncio_otlp_client.Http.Defs.{
  Reply, failed, answered, Libraries, is_success_status, accepted_outcome, http_request, retry_hint,
  reply_message, decoded, classify, http_send,
}

-- What the reply says, without the code: to try again, that the credentials were refused, that the
-- data was taken.
abbrev pub is_retried : Reply → Bool
is_retried (failed m) = true
is_retried (answered s raw header) = s == 429 || s == 502 || s == 503 || s == 504

abbrev pub is_refused : Reply → Bool
is_refused (failed m) = false
is_refused (answered s raw header) = s == 401 || s == 403

abbrev pub is_taken : Reply → Bool
is_taken (failed m) = false
is_taken (answered s raw header) = leb 200 s && leb s 299

abbrev pub is_delivered : {F : Type 0} → ExportOutcome F → Bool
is_delivered success = true
is_delivered (partial_success p) = true
is_delivered (retryable s m hint) = false
is_delivered (permanent s m) = false

-- The wait of a retryable outcome is not below zero.
abbrev pub WaitsForward : (R : Floats) → ExportOutcome (R.F) → Type 0
WaitsForward R (retryable s m (some seconds)) = R.lt seconds (R.of_int (pos 0)) ≡ false
WaitsForward R _ = Unit

pub ends : {W A : Type 0} (r : Result A × W) → Ensures Unit (λ a w. Unit) any_exc r
ends (ok a, w) = tt
ends (raised e, w) = tt
ends (stuck, w) = tt

-- An effect chosen by a test has what each branch has.
by_test :
    {W A : Type 0} (P : Result A × W → Type 0) (b : Bool) (m n : Eff W A) (w : W)
    → (b ≡ true → P (m w))
    → (b ≡ false → P (n w))
    → P ((if b then m else n) w)
by_test P true m n w h k = h refl
by_test P false m n w h k = k refl

module _ (R : Floats) {W : Type 0} (L : Libraries W (R.F)) (config : OtlpConfig (R.F))
    (encoder : Encoder (R.F)) (order : IsOrder R) where
  open R use {F}

  abbrev Agrees : Reply → ExportOutcome F → Type 0
  Agrees reply o =
      (is_delivered o ≡ is_taken reply)
      × (is_final o ≡ not (is_retried reply))
      × (is_credential_rejection o ≡ is_refused reply)
      × WaitsForward R o

  accepted-Agrees :
      (partial : Option PartialSuccess) (s : ℕ) (raw : Bytes) (header : Str)
      → is_success_status s ≡ true
      → Agrees (answered s raw header) (accepted_outcome partial)
  unfolding accepted_outcome is_retryable_status is_credential_rejection
  accepted-Agrees none s raw header h = ground arith
  accepted-Agrees (some p) s raw header h = ground arith

  decoded-Agrees :
      (kind : SignalKind) (s : ℕ) (raw : Bytes) (header : Str) (w : W)
      → is_success_status s ≡ true
      → Ensures Unit
          (λ o w'. Agrees (answered s raw header) o)
          any_exc
          (decoded R L config encoder kind raw w)
  unfolding decoded
  decoded-Agrees kind s raw header w h =
      Ensures-bind Unit (λ partial w'. Unit) (λ o w'. Agrees (answered s raw header) o) any_exc
        (λ w'. (encoder.decode_response kind raw, w')) (λ partial. pure (accepted_outcome partial))
        w (ends (encoder.decode_response kind raw, w))
        (λ partial w' u. accepted-Agrees partial s raw header h)

  -- A hint that is given is not below zero.
  abbrev Forward : Option F → W → Type 0
  Forward none w = Unit
  Forward (some seconds) w = R.lt seconds (R.of_int (pos 0)) ≡ false

  parsed-Forward :
      (header : Str) (now : F) (w : W)
      → Forward (parse_retry_after R L.strip L.parse_date header now) w
  parsed-Forward header now w =
      elim (Option-cases (parse_retry_after R L.strip L.parse_date header now)) [
        | inl e ↦ rw e tt
        | inr (seconds, e) ↦
            rw e (parse_retry_after-not_negative R order L.strip L.parse_date header now seconds e)
      ]

  hint-Forward :
      (header : Str) (w : W) → Ensures Unit Forward any_exc (retry_hint R L config encoder header w)
  unfolding retry_hint
  hint-Forward [] w = tt
  hint-Forward (c ∷ header) w =
      Ensures-bind Unit (λ now w'. Unit) Forward any_exc L.wall_clock
        (λ now. pure (parse_retry_after R L.strip L.parse_date (c ∷ header) now)) w
        (ends (L.wall_clock w)) (λ now w' u. parsed-Forward (c ∷ header) now w')

  retryable-Agrees :
      (s : ℕ) (raw : Bytes) (header message : Str) (hint : Option F) (w : W)
      → is_success_status s ≡ false
      → is_retryable_status s ≡ true
      → Forward hint w
      → Agrees (answered s raw header) (retryable (some s) message hint)
  unfolding is_retryable_status is_credential_rejection
  retryable-Agrees s raw header message none w n h f = ground arith
  retryable-Agrees s raw header message (some seconds) w n h f = ground (arith, f)

  retried-Agrees :
      (s : ℕ) (raw : Bytes) (header : Str) (w : W)
      → is_success_status s ≡ false
      → is_retryable_status s ≡ true
      → Ensures Unit
          (λ o w'. Agrees (answered s raw header) o)
          any_exc
          ((retry_hint R L config encoder header >>= λ hint.
              pure (retryable (some s) (reply_message R L config encoder raw) hint))
            w)
  retried-Agrees s raw header w n h =
      Ensures-bind Unit Forward (λ o w'. Agrees (answered s raw header) o) any_exc
        (retry_hint R L config encoder header)
        (λ hint. pure (retryable (some s) (reply_message R L config encoder raw) hint)) w
        (hint-Forward header w)
        (λ hint w'.
          retryable-Agrees s raw header (reply_message R L config encoder raw) hint w' n h)

  permanent-Agrees :
      (s : ℕ) (raw : Bytes) (header message : Str)
      → is_success_status s ≡ false
      → is_retryable_status s ≡ false
      → Agrees (answered s raw header) (permanent (some s) message)
  unfolding is_retryable_status is_credential_rejection is_auth_status
  permanent-Agrees s raw header message n h = ground arith

  classify-Agrees :
      (kind : SignalKind) (reply : Reply) (w : W)
      → Ensures Unit (λ o w'. Agrees reply o) any_exc (classify R L config encoder kind reply w)
  unfolding classify is_credential_rejection
  classify-Agrees kind (failed m) w = (refl, refl, refl, tt)
  classify-Agrees kind (answered s raw header) w =
      let message = reply_message R L config encoder raw in
      let P : Result (ExportOutcome F) × W → Type 0 =
        Ensures Unit (λ o w'. Agrees (answered s raw header) o) any_exc in
      by_test P (is_success_status s) _ _ w (decoded-Agrees kind s raw header w) (λ other.
        by_test P (is_retryable_status s) _ _ w (retried-Agrees s raw header w other)
          (permanent-Agrees s raw header message other))

  -- The outcome that a send over HTTP returns follows the reply to its request. It is a success or a
  -- partial success exactly for the statuses 200 to 299; it is retryable exactly for a lost
  -- connection, a timeout and the statuses 429, 502, 503 and 504, and then a wait that it names is
  -- not below zero, if `<` is irreflexive and asymmetric; and it rejects the credentials exactly for 401 and 403.
  pub http_send_lem :
      (kind : SignalKind) (payload : Bytes) (headers : Headers) (reply : Reply)
      (o : ExportOutcome F) (w w₁ w₂ : W)
      → L.post (http_request R L config encoder kind payload headers) w ≡ (ok reply, w₁)
      → http_send R L config encoder kind payload headers w ≡ (ok o, w₂)
      → (is_delivered o ≡ is_taken reply)
        × (is_final o ≡ not (is_retried reply))
        × (is_credential_rejection o ≡ is_refused reply)
        × WaitsForward R o
  unfolding http_send
  http_send_lem kind payload headers reply o w w₁ w₂ posted sent =
      let e : classify R L config encoder kind reply w₁ ≡ (ok o, w₂) =
        sym (
          bind-ok (L.post (http_request R L config encoder kind payload headers))
            (classify R L config encoder kind) posted)
        ∙ sent in
      subst (Ensures Unit (λ o w'. Agrees reply o) any_exc) e (classify-Agrees kind reply w₁)
