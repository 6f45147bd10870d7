-- ===== src/Config/Parse.antt =====
-- The parsers of single variables: `_parse_bool`, `_parse_timeout`, `_parse_compression`,
-- `_parse_headers`.
use asyncio_otlp_client.Base.{
  ◌++◌, Bool, true, false, ◌||◌, not, Option, none, some, List, [], ◌∷◌, Str, text, str_eq,
  is_empty, if◌then◌else◌, config_error, Result, ok, raised, ◌>>=◌,
}
use asyncio_otlp_client.Base.Int.{pos}
use asyncio_otlp_client.Base.Dict.{insert}
use asyncio_otlp_client.Base.Strings.{strip, lower, split, partition}
use asyncio_otlp_client.Floats.{Floats}
use asyncio_otlp_client.Config.Defs.{
  Compression, no_compression, gzip, OtlpProtocol, http_json, http_protobuf, grpc, Headers,
}

-- The value, and whether a warning is logged.
unfoldable pub parse_bool : Str → Bool × Bool
unfolding strip lower
parse_bool raw =
    let value = lower (strip raw) in
    if str_eq value (text "true")
    then (true, false)
    else (false, not (str_eq value (text "false") || is_empty value))

-- `Compression(raw)`
unfoldable pub compression_of : Str → Option Compression
compression_of raw =
    if str_eq raw (text "none")
    then some no_compression
    else (if str_eq raw (text "gzip") then some gzip else none)

-- `OTLPProtocol(raw)`
unfoldable pub protocol_of : Str → Option OtlpProtocol
protocol_of raw =
    if str_eq raw (text "http/json")
    then some http_json
    else (if str_eq raw (text "http/protobuf")
        then some http_protobuf
        else (if str_eq raw (text "grpc") then some grpc else none))

-- `not raw`: the variable is not set, or is empty
abbrev pub unset : Option Str → Bool
unset none = true
unset (some raw) = is_empty raw

-- `repr(raw)` is only put into messages, and is written as the text itself.
unfoldable pub parse_compression : Option Str → Str → Result (Option Compression)
unfolding compression_of
parse_compression none name = ok none
parse_compression (some raw) name = if is_empty raw then ok none else elim (compression_of raw) [
  | some c ↦ ok (some c)
  | none ↦ raised (config_error (text "unknown compression in " ++ (name ++ (text ": " ++ raw))))
]

unfoldable pub parse_protocol : Str → Result OtlpProtocol
unfolding protocol_of
parse_protocol raw = elim (protocol_of raw) [
  | some p ↦ ok p
  | none ↦ raised (config_error (text "unknown protocol " ++ raw))
]

module _ (R : Floats) where
  open R use {F, parse, div, of_int}

  unfoldable pub parse_timeout : Option Str → Str → Result (Option F)
  parse_timeout none name = ok none
  parse_timeout (some raw) name = if is_empty raw then ok none else elim (parse raw) [
    | some ms ↦ ok (some (div ms (of_int (pos 1000))))
    | none ↦ raised (config_error (text "invalid timeout in " ++ (name ++ (text ": " ++ raw))))
  ]

-- `unquote` is `urllib.parse.unquote`.
module _ (unquote : Str → Str) where
  -- one entry of the loop in `_parse_headers`
  unfoldable pub header_entry : Str → Str × Bool × Str → Headers → Result Headers
  header_entry pair (key, found, value) headers =
      if found
      then ok (insert (unquote (strip key)) (unquote (strip value)) headers)
      else raised
          (config_error (text "malformed header entry " ++ (pair ++ text ", expected key=value")))

  unfoldable pub parse_pairs : List Str → Headers → Result Headers
  unfolding header_entry strip
  parse_pairs [] headers = ok headers
  parse_pairs (pair ∷ pairs) headers =
      if is_empty (strip pair)
      then parse_pairs pairs headers
      else (header_entry pair (partition b'=' pair) headers >>= parse_pairs pairs)

  unfoldable pub parse_headers : Str → Result Headers
  unfolding parse_pairs
  parse_headers raw = parse_pairs (split b',' raw) []
