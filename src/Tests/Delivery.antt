-- ===== src/Tests/Delivery.antt =====
-- A collector that keeps what it is posted, and a gauge in protobuf.
use asyncio_otlp_client.Base.{
  ℕ, ◌≡◌, refl, false, Option, none, some, List, [], ◌∷◌, Str, text, str_eq, ok, Result, arith,
  raised, type_error, ap, sym, traverse,
}
use asyncio_otlp_client.Base.Dict.{lookup}
use asyncio_otlp_client.Base.Strings.{strip}
use asyncio_otlp_client.Floats.{HasSignedZeros}
use asyncio_otlp_client.Signals.{metrics}
use asyncio_otlp_client.Config.Defs.{OtlpConfig, gzip, headers_for}
use asyncio_otlp_client.Retry.Defs.{Hooks}
use asyncio_otlp_client.Model.Common.{Bytes, empty_resource, InstrumentationScope, end}
use asyncio_otlp_client.Model.Metrics.{Metric, gauge_data}
use asyncio_otlp_client.Client.Seams.{Envelopes, of_metrics}
use asyncio_otlp_client.Client.Defs.{OtlpClient}
use asyncio_otlp_client.Http.Defs.{Libraries, Request, answered}
use asyncio_otlp_client.Http.Exports.{http_client}
use asyncio_otlp_client.Encoding.Json.Encoder.{Python}
use asyncio_otlp_client.Encoding.Proto.Messages.{
  ResourceMessage, ScopeMessage, ScopeItems, ResourceItems,
}
use asyncio_otlp_client.Encoding.Proto.Common.{
  resource_is_empty, resource_message, scope_is_empty, scope_message,
}
use asyncio_otlp_client.Encoding.Proto.Metrics.{
  DataMessage, gauge_message, sum_message, histogram_message, exponential_message, summary_message,
  MetricMessage, data_message, metric_message, scope_metrics_message, resource_metrics_message,
  metrics_request,
}
use asyncio_otlp_client.Encoding.Proto.Encoder.{Protobuf, protobuf_encoder, encode_proto}
use asyncio_otlp_client.Encoding.Reader.Common.{Base64}
use asyncio_otlp_client.Delivery.Collector.{metrics_message, Parsers}
use asyncio_otlp_client.Delivery.Payload.{ok-injective, IsStandard}
use asyncio_otlp_client.Delivery.Export.{Takes}
use asyncio_otlp_client.Tests.Samples.{ticks}
use asyncio_otlp_client.Tests.Config.{configured, url_lib}

abbrev pub base64 : Base64
base64 = record { encode = λ b. b; decode = λ s. s; decode-encode = λ b. refl }

pub zeros : HasSignedZeros ticks
zeros = record { positive_zero = λ x z n. ground arith }

abbrev pub refused : {A : Type 0} → Result A
refused = raised (type_error [])

abbrev pub python : Python ℕ
python = record {
  b64 = λ b. b;
  dumps = λ doc. refused;
  loads = λ b. refused;
  int_of_float = λ x. refused;
  int_of_str = λ s. refused;
  repr = λ doc. [];
}

abbrev entry : Bytes → MetricMessage ℕ
entry b = record { name = b; description = []; unit = []; body = some (gauge_message []) }

abbrev scoped : Bytes → ScopeItems ℕ (MetricMessage ℕ)
scoped b = record { scope = none; entries = entry b ∷ [] }

abbrev around : Bytes → ResourceItems ℕ (MetricMessage ℕ)
around b = record { resource = none; scopes = scoped b ∷ [] }

-- A message of one gauge with a name and nothing else is written as that name; others are refused.
abbrev write_metric : Str → Str → Str → Option (DataMessage ℕ) → Result Bytes
write_metric name [] [] (some (gauge_message [])) = ok name
write_metric name description unit body = refused

abbrev write_entries : List (MetricMessage ℕ) → Result Bytes
write_entries (m ∷ []) = write_metric m.name m.description m.unit m.body
write_entries ms = refused

abbrev write_scope : Option (ScopeMessage ℕ) → List (MetricMessage ℕ) → Result Bytes
write_scope none ms = write_entries ms
write_scope (some s) ms = refused

abbrev write_scopes : List (ScopeItems ℕ (MetricMessage ℕ)) → Result Bytes
write_scopes (s ∷ []) = write_scope s.scope s.entries
write_scopes ss = refused

abbrev write_item :
    Option (ResourceMessage ℕ) → List (ScopeItems ℕ (MetricMessage ℕ)) → Result Bytes
write_item none ss = write_scopes ss
write_item (some r) ss = refused

abbrev write_items : List (ResourceItems ℕ (MetricMessage ℕ)) → Result Bytes
write_items (i ∷ []) = write_item i.resource i.scopes
write_items is = refused

abbrev pub protobuf : Protobuf ℕ
protobuf = record {
  serialize_metrics = write_items;
  serialize_logs = λ m. refused;
  serialize_traces = λ m. refused;
  from_string = λ kind b. none;
}

abbrev pub parsers : Parsers ℕ
parsers = record {
  decompress = λ b. elim b [ [] ↦ [] | x ∷ xs ↦ xs ];
  parse_json = λ b. none;
  parse_message = λ kind b. some (metrics_message (around b ∷ []));
}

read_metric :
    (name description unit : Str) (body : Option (DataMessage ℕ)) (b : Bytes)
    → write_metric name description unit body ≡ ok b
    → ◌≡◌ {A = MetricMessage ℕ}
        (record { name = name; description = description; unit = unit; body = body })
        (entry b)
read_metric name [] [] (some (gauge_message [])) b e = ap entry (ok-injective e)
read_metric name [] [] (some (gauge_message (p ∷ ps))) b e = cc
read_metric name [] [] (some (sum_message ps t m)) b e = cc
read_metric name [] [] (some (histogram_message ps t)) b e = cc
read_metric name [] [] (some (exponential_message ps t)) b e = cc
read_metric name [] [] (some (summary_message ps)) b e = cc
read_metric name [] [] none b e = cc
read_metric name [] (x ∷ xs) body b e = cc
read_metric name (x ∷ xs) unit body b e = cc

read_entries :
    (ms : List (MetricMessage ℕ)) (b : Bytes) → write_entries ms ≡ ok b → ms ≡ entry b ∷ []
read_entries (m ∷ []) b e = ap (λ m. m ∷ []) (read_metric m.name m.description m.unit m.body b e)
read_entries [] b e = cc
read_entries (m ∷ n ∷ ms) b e = cc

read_scope :
    (s : Option (ScopeMessage ℕ)) (ms : List (MetricMessage ℕ)) (b : Bytes)
    → write_scope s ms ≡ ok b
    → ◌≡◌ {A = ScopeItems ℕ (MetricMessage ℕ)} (record { scope = s; entries = ms }) (scoped b)
read_scope none ms b e = ap (λ ms. record { scope = none; entries = ms }) (read_entries ms b e)
read_scope (some s) ms b e = cc

read_scopes :
    (ss : List (ScopeItems ℕ (MetricMessage ℕ))) (b : Bytes)
    → write_scopes ss ≡ ok b
    → ss ≡ scoped b ∷ []
read_scopes (s ∷ []) b e = ap (λ s. s ∷ []) (read_scope s.scope s.entries b e)
read_scopes [] b e = cc
read_scopes (s ∷ t ∷ ss) b e = cc

read_item :
    (r : Option (ResourceMessage ℕ)) (ss : List (ScopeItems ℕ (MetricMessage ℕ))) (b : Bytes)
    → write_item r ss ≡ ok b
    → ◌≡◌ {A = ResourceItems ℕ (MetricMessage ℕ)} (record { resource = r; scopes = ss }) (around b)
read_item none ss b e = ap (λ ss. record { resource = none; scopes = ss }) (read_scopes ss b e)
read_item (some r) ss b e = cc

read_items :
    (is : List (ResourceItems ℕ (MetricMessage ℕ))) (b : Bytes)
    → write_items is ≡ ok b
    → is ≡ around b ∷ []
read_items (i ∷ []) b e = ap (λ i. i ∷ []) (read_item i.resource i.scopes b e)
read_items [] b e = cc
read_items (i ∷ j ∷ is) b e = cc

abbrev pub Inbox : Type 0
Inbox = List (Request ℕ)

abbrev pub collector : Libraries Inbox ℕ
collector = record {
  urls = url_lib;
  compress = λ payload. 31 ∷ payload;
  decode_utf8 = λ raw. raw;
  strip = strip;
  parse_date = λ t. none;
  wall_clock = λ w. (ok 0, w);
  post = λ request w. (ok (answered 200 [] []), request ∷ w);
  close = λ w. (ok tt, w);
}

abbrev pub still : Hooks Inbox ℕ
still = record { sleep = λ d w. (ok tt, w); monotonic = λ w. (ok 0, w); jitter = λ w. (ok 1, w) }

pub standard : IsStandard ticks base64 python protobuf collector.compress parsers
standard = record {
  b64 = refl;
  parse_json = λ doc b e. cc;
  parse_metrics = λ m b e. ap (λ m. some (metrics_message m)) (sym (read_items m b e));
  parse_logs = λ m b e. cc;
  parse_traces = λ m b e. cc;
  gunzip = λ b. refl;
}

abbrev pub takes : Takes collector still
takes = record {
  inbox = λ w. w;
  takes = λ q w. (200, [], q ∷ w, refl, refl, refl);
  clock = λ w. (0, w, refl, refl);
}

abbrev pub zipping : OtlpConfig ℕ
zipping = record configured { metrics_compression = some gzip }

abbrev pub gauge_named : Metric ℕ
gauge_named = record { name = text "up"; body = gauge_data []; description = []; unit = [] }

abbrev pub no_scope : InstrumentationScope ℕ
no_scope = record { name = []; version = none; attributes = end }

abbrev pub gauges : Envelopes ℕ
gauges = of_metrics (
    record {
      resource = empty_resource;
      scope_metrics = record { scope = no_scope; metrics = gauge_named ∷ [] } ∷ [];
    }
    ∷ [])

pub no_encoding : lookup (text "Content-Encoding") (headers_for zipping metrics) ≡ none
unfolding text str_eq lookup headers_for
no_encoding = refl

pub encoded : (protobuf_encoder protobuf).encode gauges ≡ ok (text "up")
unfolding protobuf_encoder encode_proto metrics_request resource_metrics_message
    scope_metrics_message metric_message data_message resource_message resource_is_empty
    scope_message scope_is_empty traverse
encoded = refl

abbrev pub sender : OtlpClient Inbox ℕ
sender = http_client ticks collector zipping (protobuf_encoder protobuf) false none none still
