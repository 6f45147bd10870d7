-- ===== src/Delivery/Collector.antt =====
-- A collector that is posted OTLP over HTTP, with no code of the repository: how the specification of the
-- protocol reads a request.
use asyncio_otlp_client.Base.{
  ◌≡◌, refl, Bool, true, false, ◌==◌, ◌&&◌, ◌∷◌, ◌++◌, Option, none, some, List, Str, text, str_eq,
  [], or_default, if◌then◌else◌, Result, ok, ◌>>=◌,
}
use mathlib.Core.List.{reverse, reverse-append}
use asyncio_otlp_client.Base.Dict.{lookup}
use asyncio_otlp_client.Floats.{Floats}
use asyncio_otlp_client.Signals.{SignalKind, metrics, logs, traces, profiles, http_path}
use asyncio_otlp_client.Model.Common.{Bytes}
use asyncio_otlp_client.Client.Seams.{Envelopes, of_metrics, of_logs, of_traces, kind_of}
use asyncio_otlp_client.Http.Defs.{Request}
use asyncio_otlp_client.Encoding.Json.Tree.{Json}
use asyncio_otlp_client.Encoding.Proto.Messages.{LogMessage, SpanMessage, ResourceItems}
use asyncio_otlp_client.Encoding.Proto.Logs.{logs_request}
use asyncio_otlp_client.Encoding.Proto.Traces.{traces_request}
use asyncio_otlp_client.Encoding.Proto.Metrics.{MetricMessage, metrics_request}
use asyncio_otlp_client.Encoding.Reader.Common.{Base64}
use asyncio_otlp_client.Encoding.Reader.Logs.{read_logs_request}
use asyncio_otlp_client.Encoding.Reader.Traces.{read_traces_request}
use asyncio_otlp_client.Encoding.Reader.Metrics.{read_metrics_request}

-- a request of one of the three services
pub data Message (F : Type 0) : Type 0 where
  metrics_message : List (ResourceItems F (MetricMessage F)) → Message F
  logs_message : List (ResourceItems F (LogMessage F)) → Message F
  traces_message : List (ResourceItems F (SpanMessage F)) → Message F

-- The message that envelopes mean; some metrics mean none.
abbrev pub message_of : {F : Type 0} → Envelopes F → Result (Message F)
message_of (of_metrics data_) = metrics_request data_ >>= λ m. ok (metrics_message m)
message_of (of_logs data_) = ok (logs_message (logs_request data_))
message_of (of_traces data_) = ok (traces_message (traces_request data_))

-- What the collector uses: gzip, a JSON parser, and a parser of the protobuf message of a signal.
pub record Parsers (F : Type 0) : Type 0 where
  pub decompress : Bytes → Bytes
  pub parse_json : Bytes → Option (Json F)
  pub parse_message : SignalKind → Bytes → Option (Message F)

-- Does `s` begin with `p`?
abbrev begins : Str → Str → Bool
begins [] s = true
begins (c ∷ p) [] = false
begins (c ∷ p) (d ∷ s) = c == d && begins p s

abbrev ends_in : Str → Str → Bool
ends_in path url = begins (reverse path) (reverse url)

-- The receivers of the three signals, by the paths that the specification gives them. The server may
-- have them below a path of its own.
unfoldable pub route : Str → Option SignalKind
route url =
    if ends_in (text "/v1/metrics") url
    then some metrics
    else if ends_in (text "/v1/logs") url
    then some logs
    else if ends_in (text "/v1/traces") url
    then some traces
    else none

-- A path that a base is put before is found at the end.
pub route-append :
    (base : Str) {F : Type 0} (envelopes : Envelopes F)
    → route (base ++ http_path (kind_of envelopes)) ≡ some (kind_of envelopes)
unfolding route http_path text
route-append base (of_metrics d) = rw (reverse-append base (text "/v1/metrics")) refl
route-append base (of_logs d) = rw (reverse-append base (text "/v1/logs")) refl
route-append base (of_traces d) = rw (reverse-append base (text "/v1/traces")) refl

module _ (R : Floats) (B : Base64) (C : Parsers R.F) where
  -- a document that is posted for a signal
  abbrev pub read_document : SignalKind → Json R.F → Option (Message R.F)
  read_document metrics doc = some (metrics_message (read_metrics_request R B doc))
  read_document logs doc = some (logs_message (read_logs_request B doc))
  read_document traces doc = some (traces_message (read_traces_request B doc))
  read_document profiles doc = none

  abbrev pub read_json : SignalKind → Option (Json R.F) → Option (Message R.F)
  read_json kind none = none
  read_json kind (some doc) = read_document kind doc

  -- a body by its media type
  abbrev pub read_body : SignalKind → Option Str → Bytes → Option (Message R.F)
  read_body kind type body =
      if str_eq (or_default [] type) (text "application/json")
      then read_json kind (C.parse_json body)
      else if str_eq (or_default [] type) (text "application/x-protobuf")
      then C.parse_message kind body
      else none

  abbrev pub read_routed : Option SignalKind → Option Str → Bytes → Option (Message R.F)
  read_routed none type body = none
  read_routed (some kind) type body = read_body kind type body

  -- A request: its path says the signal, and its headers how the body is written.
  unfoldable pub read_request : Request R.F → Option (Message R.F)
  read_request request =
      let encoding = or_default [] (lookup (text "Content-Encoding") request.headers) in
      let body =
        if str_eq encoding (text "gzip") then C.decompress request.body else request.body in
      read_routed (route request.url) (lookup (text "Content-Type") request.headers) body
