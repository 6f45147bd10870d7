-- ===== src/Grpc/Codes.antt =====
-- The outcome of a send over gRPC, by the status code of the reply.
use asyncio_otlp_client.Base.{
  ◌≡◌, refl, Bool, true, false, not, Option, none, some, List, [], ◌∷◌, Str, arith, ok,
  Option-cases, inl, inr, sym, subst, ◌∙◌,
}
use asyncio_otlp_client.Base.Int.{pos}
use asyncio_otlp_client.Effects.{bind-ok, pure}
use asyncio_otlp_client.Effects.Hoare.{Ensures, Ensures-bind}
use asyncio_otlp_client.Floats.{Floats, IsOrder}
use asyncio_otlp_client.Signals.{SignalKind}
use asyncio_otlp_client.Outcomes.{
  PartialSuccess, ExportOutcome, retryable, is_credential_rejection, is_auth_status,
}
use asyncio_otlp_client.Config.Defs.{OtlpConfig, Headers}
use asyncio_otlp_client.Retry.Returns.{is_final, any_exc}
use asyncio_otlp_client.Model.Common.{Bytes}
use asyncio_otlp_client.Client.Seams.{Encoder}
use asyncio_otlp_client.Http.Replies.{is_delivered, WaitsForward, ends}
use asyncio_otlp_client.Grpc.Defs.{
  Code, unavailable, deadline_exceeded, resource_exhausted, unauthenticated, permission_denied,
  other_code, RpcError, CallReply, rpc_failed, rpc_done, Channel, is_retryable_code, auth_status,
  pushback, classify_error, done_outcome, read_reply, grpc_call, grpc_send,
}

-- What the reply says: that the data was taken, to try again, that the credentials were refused.
abbrev pub took : CallReply → Bool
took (rpc_done raw) = true
took (rpc_failed exc) = false

abbrev pub is_passing : Code → Bool
is_passing unavailable = true
is_passing deadline_exceeded = true
is_passing resource_exhausted = true
is_passing _ = false

abbrev pub asks_again : CallReply → Bool
asks_again (rpc_done raw) = false
asks_again (rpc_failed exc) = is_passing exc.code

abbrev pub is_auth_code : Code → Bool
is_auth_code unauthenticated = true
is_auth_code permission_denied = true
is_auth_code _ = false

abbrev pub refuses : CallReply → Bool
refuses (rpc_done raw) = false
refuses (rpc_failed exc) = is_auth_code exc.code

module _ (R : Floats) {W : Type 0} (C : Channel W (R.F)) (config : OtlpConfig (R.F))
    (encoder : Encoder (R.F)) (order : IsOrder R) where
  open R use {F, lt, of_int}

  abbrev Follows : CallReply → ExportOutcome F → Type 0
  Follows reply o =
      (is_delivered o ≡ took reply)
      × (is_final o ≡ not (asks_again reply))
      × (is_credential_rejection o ≡ refuses reply)
      × WaitsForward R o

  pushback-not_negative :
      (entries : List (Str × Str)) (seconds : F)
      → pushback R entries ≡ some seconds
      → lt seconds (of_int (pos 0)) ≡ false
  unfolding pushback
  pushback-not_negative [] seconds h = cc
  pushback-not_negative ((key, value) ∷ entries) seconds h = ground (
    arith,
    order.irrefl (of_int (pos 0)),
    order.asymm (of_int (pos 0)) seconds,
    pushback-not_negative entries seconds,
  )

  pushback-WaitsForward :
      (message : Str) (entries : List (Str × Str))
      → WaitsForward R (retryable none message (pushback R entries))
  pushback-WaitsForward message entries = elim (Option-cases (pushback R entries)) [
    | inl e ↦ rw e tt
    | inr (seconds, e) ↦ rw e (pushback-not_negative entries seconds e)
  ]

  by_code :
      (code : Code) (details : Str) (trailing : List (Str × Str))
      → let exc : RpcError = record { code = code; details = details; trailing = trailing } in
        Follows (rpc_failed exc) (classify_error R C config encoder exc)
  unfolding classify_error is_retryable_code auth_status is_credential_rejection is_auth_status
  by_code unavailable details trailing = (refl, refl, refl, pushback-WaitsForward details trailing)
  by_code deadline_exceeded details trailing =
      (refl, refl, refl, pushback-WaitsForward details trailing)
  by_code resource_exhausted details trailing =
      (refl, refl, refl, pushback-WaitsForward details trailing)
  by_code unauthenticated details trailing = (refl, refl, refl, tt)
  by_code permission_denied details trailing = (refl, refl, refl, tt)
  by_code (other_code name) details trailing = (refl, refl, refl, tt)

  done-Follows :
      (raw : Bytes) (partial : Option PartialSuccess)
      → Follows (rpc_done raw) (done_outcome R C config encoder partial)
  unfolding done_outcome is_credential_rejection
  done-Follows raw none = (refl, refl, refl, tt)
  done-Follows raw (some p) = (refl, refl, refl, tt)

  read_reply-Follows :
      (kind : SignalKind) (reply : CallReply) (w : W)
      → Ensures Unit (λ o w'. Follows reply o) any_exc (read_reply R C config encoder kind reply w)
  unfolding read_reply
  read_reply-Follows kind (rpc_failed exc) w = by_code exc.code exc.details exc.trailing
  read_reply-Follows kind (rpc_done raw) w =
      Ensures-bind Unit (λ partial w'. Unit) (λ o w'. Follows (rpc_done raw) o) any_exc
        (λ w'. (encoder.decode_response kind raw, w'))
        (λ partial. pure (done_outcome R C config encoder partial)) w
        (ends (encoder.decode_response kind raw, w)) (λ partial w' u. done-Follows raw partial)

  -- The outcome that a send over gRPC returns follows the reply to its call. It is a success or a
  -- partial success exactly if the call did not fail; it is retryable exactly for UNAVAILABLE,
  -- DEADLINE_EXCEEDED and RESOURCE_EXHAUSTED, and then a wait that it names is not below zero, if `<`
  -- is irreflexive and asymmetric; and it rejects the credentials, as over HTTP, exactly for
  -- UNAUTHENTICATED and PERMISSION_DENIED.
  pub grpc_send_lem :
      (kind : SignalKind) (payload : Bytes) (headers : Headers) (reply : CallReply)
      (o : ExportOutcome F) (w w₁ w₂ : W)
      → C.call (grpc_call R C config encoder kind payload headers) w ≡ (ok reply, w₁)
      → grpc_send R C config encoder kind payload headers w ≡ (ok o, w₂)
      → (is_delivered o ≡ took reply)
        × (is_final o ≡ not (asks_again reply))
        × (is_credential_rejection o ≡ refuses reply)
        × WaitsForward R o
  unfolding grpc_send
  grpc_send_lem kind payload headers reply o w w₁ w₂ called sent =
      let e : read_reply R C config encoder kind reply w₁ ≡ (ok o, w₂) =
        sym (
          bind-ok (C.call (grpc_call R C config encoder kind payload headers))
            (read_reply R C config encoder kind) called)
        ∙ sent in
      subst (Ensures Unit (λ o w'. Follows reply o) any_exc) e (read_reply-Follows kind reply w₁)
