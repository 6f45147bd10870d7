-- ===== src/Http/Defs.antt =====
-- `HTTPTransport`: the request that `send` makes and the outcome that it reads from the response.
-- aiohttp is the parameter `post`; gzip, the UTF-8 decoder, the wall clock and the parser of dates
-- are parameters as well.
use asyncio_otlp_client.Base.{
  ℕ, ◌&&◌, Bool, true, false, Option, none, some, ltb, leb, take, Str, text, is_empty,
  if◌then◌else◌,
}
use asyncio_otlp_client.Base.Dict.{insert}
use asyncio_otlp_client.Effects.{Eff, pure, ◌>>=◌}
use asyncio_otlp_client.Floats.{Floats}
use asyncio_otlp_client.Signals.{SignalKind}
use asyncio_otlp_client.Outcomes.{
  PartialSuccess, ExportOutcome, success, partial_success, retryable, permanent,
}
use asyncio_otlp_client.Config.Defs.{
  OtlpConfig, Compression, no_compression, gzip, Headers, UrlLib, endpoint_for, timeout_for,
  compression_for,
}
use asyncio_otlp_client.Retry.Defs.{is_retryable_status, parse_retry_after}
use asyncio_otlp_client.Model.Common.{Bytes}
use asyncio_otlp_client.Client.Seams.{Encoder, Transport}

-- The arguments of `session.post` that vary.
pub record Request (F : Type 0) : Type 0 where
  pub url : Str
  pub body : Bytes
  pub headers : Headers
  pub timeout : F

-- What a post ends in: a `ClientError` or `TimeoutError` with its text, or a response, with its
-- header `Retry-After` or the empty text.
pub data Reply : Type 0 where
  failed : Str → Reply
  answered : (status : ℕ) (raw : Bytes) (header : Str) → Reply

-- The functions of libraries that the transport calls.
pub record Libraries (W F : Type 0) : Type 1 where
  pub urls : UrlLib
  pub compress : Bytes → Bytes
  pub decode_utf8 : Bytes → Str
  pub strip : Str → Str
  pub parse_date : Str → Option F
  pub wall_clock : Eff W F
  pub post : Request F → Eff W Reply
  pub close : Eff W (Unit {0})

abbrev pub is_gzip : Compression → Bool
is_gzip no_compression = false
is_gzip gzip = true

-- `200 <= status < 300`
abbrev pub is_success_status : ℕ → Bool
is_success_status s = leb 200 s && ltb s 300

-- `partial if partial is not None else Success()`
unfoldable pub accepted_outcome : {F : Type 0} → Option PartialSuccess → ExportOutcome F
accepted_outcome none = success
accepted_outcome (some p) = partial_success p

module _ (R : Floats) {W : Type 0} (L : Libraries W (R.F)) (config : OtlpConfig (R.F))
    (encoder : Encoder (R.F)) where
  open R use {F}

  unfoldable pub http_headers : SignalKind → Headers → Headers
  http_headers kind headers =
      let typed = insert (text "Content-Type") encoder.content_type headers in
      if is_gzip (compression_for config kind)
      then insert (text "Content-Encoding") (text "gzip") typed
      else typed

  -- the request that `send` posts
  unfoldable pub http_request : SignalKind → Bytes → Headers → Request F
  unfolding http_headers
  http_request kind payload headers = record {
    url = endpoint_for L.urls config kind;
    body = if is_gzip (compression_for config kind) then L.compress payload else payload;
    headers = http_headers kind headers;
    timeout = timeout_for config kind;
  }

  -- the argument `retry_after`; the wall clock is read only for a header
  unfoldable pub retry_hint : Str → Eff W (Option F)
  retry_hint header =
      if is_empty header
      then pure none
      else (L.wall_clock >>= λ now. pure (parse_retry_after R L.strip L.parse_date header now))

  -- `raw.decode("utf-8", "replace")[:512]`
  unfoldable pub reply_message : Bytes → Str
  reply_message raw = take 512 (L.decode_utf8 raw)

  unfoldable pub decoded : SignalKind → Bytes → Eff W (ExportOutcome F)
  unfolding accepted_outcome
  decoded kind raw =
      (λ w. (encoder.decode_response kind raw, w)) >>= λ partial. pure (accepted_outcome partial)

  unfoldable pub classify : SignalKind → Reply → Eff W (ExportOutcome F)
  unfolding decoded retry_hint reply_message
  classify kind (failed message) = pure (retryable none message none)
  classify kind (answered status raw header) =
      if is_success_status status
      then decoded kind raw
      else (if is_retryable_status status
          then (retry_hint header >>= λ hint.
              pure (retryable (some status) (reply_message raw) hint))
          else pure (permanent (some status) (reply_message raw)))

  -- `send`
  unfoldable pub http_send : SignalKind → Bytes → Headers → Eff W (ExportOutcome F)
  unfolding http_request classify
  http_send kind payload headers = L.post (http_request kind payload headers) >>= classify kind

  -- `aclose`: a session that the transport was given stays open
  unfoldable pub http_aclose : (owns_session : Bool) → Eff W (Unit {0})
  http_aclose owns_session = if owns_session then L.close else pure tt

  -- the transport as its protocol
  unfoldable pub http_transport : (owns_session : Bool) → Transport W F
  unfolding http_send http_aclose
  http_transport owns_session = record { send = http_send; aclose = http_aclose owns_session }
