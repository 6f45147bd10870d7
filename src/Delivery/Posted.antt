-- ===== src/Delivery/Posted.antt =====
-- The request that the HTTP transport posts, as a collector reads it.
use asyncio_otlp_client.Base.{
  ◌≡◌, refl, ap, ◌∙◌, Option, none, some, Str, text, str_eq, [], or_default, if◌then◌else◌,
  Bool-cases, inl, inr,
}
use asyncio_otlp_client.Base.Dict.{lookup, lookup-insert, insert}
use asyncio_otlp_client.Base.Strings.{rstrip_slash}
use asyncio_otlp_client.Floats.{Floats}
use asyncio_otlp_client.Signals.{SignalKind}
use asyncio_otlp_client.Config.Defs.{
  OtlpConfig, Headers, compression_for, endpoint_override, base_endpoint, endpoint_for,
}
use asyncio_otlp_client.Model.Common.{Bytes}
use asyncio_otlp_client.Client.Seams.{Encoder, Envelopes, kind_of}
use asyncio_otlp_client.Http.Defs.{Libraries, is_gzip, http_headers, http_request}
use asyncio_otlp_client.Encoding.Reader.Common.{Base64}
use asyncio_otlp_client.Delivery.Collector.{
  Parsers, read_body, read_routed, read_request, route, route-append,
}

abbrev type_in : Headers → Option Str
type_in headers = lookup (text "Content-Type") headers

abbrev pub encoding_in : Headers → Option Str
encoding_in headers = lookup (text "Content-Encoding") headers

module _ (R : Floats) {W : Type 0} (B : Base64) (C : Parsers (R.F)) (L : Libraries W (R.F))
    (gunzip : (b : Bytes) → C.decompress (L.compress b) ≡ b) (config : OtlpConfig (R.F))
    (encoder : Encoder (R.F)) where
  abbrev typed : Headers → Headers
  typed headers = insert (text "Content-Type") encoder.content_type headers

  abbrev zipped : Headers → Headers
  zipped headers = insert (text "Content-Encoding") (text "gzip") (typed headers)

  typed-encoding : (headers : Headers) → encoding_in (typed headers) ≡ encoding_in headers
  unfolding text str_eq
  typed-encoding headers =
      lookup-insert (text "Content-Type") (text "Content-Encoding") encoder.content_type headers

  typed-type : (headers : Headers) → type_in (typed headers) ≡ some encoder.content_type
  unfolding text str_eq
  typed-type headers =
      lookup-insert (text "Content-Type") (text "Content-Type") encoder.content_type headers

  zipped-encoding : (headers : Headers) → encoding_in (zipped headers) ≡ some (text "gzip")
  unfolding text str_eq
  zipped-encoding headers =
      lookup-insert (text "Content-Encoding") (text "Content-Encoding") (text "gzip")
        (typed headers)

  zipped-type : (headers : Headers) → type_in (zipped headers) ≡ some encoder.content_type
  unfolding text str_eq
  zipped-type headers =
      lookup-insert (text "Content-Encoding") (text "Content-Type") (text "gzip") (typed headers)
      ∙ typed-type headers

  -- the body by its encoding
  abbrev decoded_by : Option Str → Bytes → Bytes
  decoded_by encoding body =
      if str_eq (or_default [] encoding) (text "gzip") then C.decompress body else body

  decoded-zipped :
      (payload : Bytes) → decoded_by (some (text "gzip")) (L.compress payload) ≡ payload
  unfolding text str_eq
  decoded-zipped payload = gunzip payload

  same_body :
      (kind : SignalKind) {t u : Option Str} {a b : Bytes}
      → t ≡ u
      → a ≡ b
      → read_body R B C kind t a ≡ read_body R B C kind u b
  same_body kind p q = λ i. read_body R B C kind (p i) (q i)

  routed_body :
      {r : Option SignalKind} (kind : SignalKind) (t : Option Str) (b : Bytes)
      → r ≡ some kind
      → read_routed R B C r t b ≡ read_body R B C kind t b
  routed_body kind t b e = rw e refl

  -- A path that the signal's own URL does not replace is the signal's.
  route-endpoint_for :
      (envelopes : Envelopes (R.F))
      → endpoint_override config (kind_of envelopes) ≡ none
      → route (endpoint_for L.urls config (kind_of envelopes)) ≡ some (kind_of envelopes)
  unfolding endpoint_for base_endpoint
  route-endpoint_for envelopes e =
      rw (e, endpoint_for) (route-append (rstrip_slash config.endpoint) envelopes)

  body_of :
      (kind : SignalKind) (payload : Bytes) (headers : Headers)
      → encoding_in headers ≡ none
      → let q = http_request R L config encoder kind payload headers in
        read_body R B C kind (type_in q.headers) (decoded_by (encoding_in q.headers) q.body)
        ≡ read_body R B C kind (some encoder.content_type) payload
  unfolding http_request http_headers text str_eq
  body_of kind payload headers plain = elim (Bool-cases (is_gzip (compression_for config kind))) [
    | inl compressed ↦ rw compressed (
        same_body kind (zipped-type headers) (
          ap (λ e. decoded_by e (L.compress payload)) (zipped-encoding headers)
          ∙ decoded-zipped payload))
    | inr raw ↦ rw raw (
        same_body kind (typed-type headers)
          (ap (λ e. decoded_by e payload) (typed-encoding headers ∙ plain)))
  ]

  -- A request of envelopes is read as its payload is, compressed or not, by the receiver of its path.
  pub read_request-http_request :
      (envelopes : Envelopes (R.F)) (payload : Bytes) (headers : Headers)
      → endpoint_override config (kind_of envelopes) ≡ none
      → encoding_in headers ≡ none
      → read_request R B C (http_request R L config encoder (kind_of envelopes) payload headers)
        ≡ read_body R B C (kind_of envelopes) (some encoder.content_type) payload
  unfolding read_request http_request
  read_request-http_request envelopes payload headers shared plain =
      routed_body (kind_of envelopes) _ _ (route-endpoint_for envelopes shared)
      ∙ body_of (kind_of envelopes) payload headers plain
