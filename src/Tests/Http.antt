-- ===== src/Tests/Http.antt =====
-- Sends and an export over HTTP, to a server that knows two statuses.
use asyncio_otlp_client.Base.{
  ℕ, ◌+◌, ◌≡◌, refl, true, false, not, ◌==◌, none, some, [], ◌∷◌, text, ok, raised, permanent_error,
  if◌then◌else◌,
}
use asyncio_otlp_client.Base.Strings.{strip}
use asyncio_otlp_client.Signals.{logs}
use asyncio_otlp_client.Outcomes.{ExportOutcome, all_accepted, retryable, is_credential_rejection}
use asyncio_otlp_client.Retry.Defs.{parse_retry_after, is_retryable_status}
use asyncio_otlp_client.Retry.Returns.{is_final}
use asyncio_otlp_client.Client.Exports.{export}
use asyncio_otlp_client.Http.Defs.{Libraries, Reply, answered, http_send}
use asyncio_otlp_client.Http.Replies.{
  is_delivered, is_taken, is_retried, is_refused, WaitsForward, http_send_lem,
}
use asyncio_otlp_client.Http.Exports.{http_client, rejection, export_http}
use asyncio_otlp_client.Tests.Samples.{ticks, ticks-IsOrder, World, fresh, hooks}
use asyncio_otlp_client.Tests.Config.{configured, url_lib}
use asyncio_otlp_client.Tests.Client.{encoder, envelopes}

abbrev busy : ExportOutcome ℕ
busy = retryable (some 503) (text "busy") (some 7)

abbrev busy_reply : Reply
busy_reply = answered 503 (text "busy") (text "7")

-- A server that is overloaded for the first request and refuses the second.
abbrev server : Libraries World ℕ
server = record {
  urls = url_lib;
  compress = λ payload. 31 ∷ payload;
  decode_utf8 = λ raw. raw;
  strip = strip;
  parse_date = λ t. none;
  wall_clock = λ w. (ok 0, w);
  post = λ request w. (
    ok (if w.tries == 0 then busy_reply else answered 400 (text "bad") []),
    record w { tries = w.tries + 1 },
  );
  close = λ w. (ok tt, w);
}

abbrev tried : World
tried = record fresh { tries = 1 }

http_send-busy : http_send ticks server configured encoder logs (0 ∷ []) [] fresh ≡ (ok busy, tried)
unfolding http_send is_retryable_status parse_retry_after strip text
http_send-busy = refl

http_send_lem_example :
    (is_delivered busy ≡ is_taken busy_reply)
    × (is_final busy ≡ not (is_retried busy_reply))
    × (is_credential_rejection busy ≡ is_refused busy_reply)
    × WaitsForward ticks busy
http_send_lem_example =
    http_send_lem ticks server configured encoder ticks-IsOrder logs (0 ∷ []) [] busy_reply busy
      fresh tried tried refl http_send-busy

export_http_example :
    (is_taken (answered 400 (text "bad") []) ≡ true
      → encoder.decode_response logs (text "bad") ≡ ok none
      → export ticks
          (http_client ticks server configured encoder false none none hooks)
          1
          envelopes
          tried
        ≡ (ok all_accepted, record fresh { tries = 2 }))
    × (is_taken (answered 400 (text "bad") []) ≡ false
        → is_retried (answered 400 (text "bad") []) ≡ false
        → export ticks
            (http_client ticks server configured encoder false none none hooks)
            1
            envelopes
            tried
          ≡ (
            raised (
                permanent_error (
                  rejection ticks server configured encoder false none none hooks logs 400
                    (text "bad"))),
            record fresh { tries = 2 },
          ))
export_http_example =
    export_http ticks server configured encoder false none none hooks 0 envelopes (0 ∷ []) 5 400
      (text "bad") [] tried tried (record fresh { tries = 2 }) refl refl refl refl
