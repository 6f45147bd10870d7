-- ===== src/Encoding/Json/Encoder.antt =====
-- `JSONEncoder` of src/otlp_client/encoding/json.py.
use asyncio_otlp_client.Base.{
  true, false, Option, none, some, [], Str, text, str_eq, Result, ok, raised, stuck, ◌>>=◌,
  type_error, value_error, is_empty, if◌then◌else◌,
}
use asyncio_otlp_client.Base.Int.{ℤ, pos, str_of_int}
use asyncio_otlp_client.Floats.{Floats}
use asyncio_otlp_client.Signals.{SignalKind, metrics, logs, traces, profiles}
use asyncio_otlp_client.Outcomes.{PartialSuccess}
use asyncio_otlp_client.Client.Seams.{Encoder, Envelopes, of_metrics, of_logs, of_traces}
use asyncio_otlp_client.Model.Common.{Bytes}
use asyncio_otlp_client.Encoding.Json.Tree.{
  Json, null, boolean, integer, number, string, array, object, Members, no_members, member,
}
use asyncio_otlp_client.Encoding.Json.Logs.{encode_resource_logs}
use asyncio_otlp_client.Encoding.Json.Traces.{encode_resource_spans}
use asyncio_otlp_client.Encoding.Json.Metrics.{encode_resource_metrics}

-- What the encoder uses of Python: base64, `_dumps`, `json.loads`, which raises a `ValueError` for what is
-- not JSON, `int` of a float and of a `str`, and `str` of a float, a list or a dict.
pub record Python (F : Type 0) : Type 0 where
  pub b64 : Bytes → Str
  pub dumps : Json F → Result Bytes
  pub loads : Bytes → Result (Json F)
  pub int_of_float : F → Result ℤ
  pub int_of_str : Str → Result ℤ
  pub repr : Json F → Str

-- `partial.get(key, default)`
unfoldable pub get_or : {F : Type 0} → Str → Json F → Members F → Json F
get_or key default no_members = default
get_or key default (member k v ms) = if str_eq k key then v else get_or key default ms

unfoldable pub rejected_key : SignalKind → Str
rejected_key metrics = text "rejectedDataPoints"
rejected_key logs = text "rejectedLogRecords"
rejected_key traces = text "rejectedSpans"
rejected_key profiles = text "rejectedProfiles"

-- `except (TypeError, ValueError): rejected = 0`
unfoldable pub zero_if_malformed : Result ℤ → Result ℤ
zero_if_malformed (raised (type_error message)) = ok (pos 0)
zero_if_malformed (raised (value_error message)) = ok (pos 0)
zero_if_malformed r = r

-- `except ValueError: return None` around `json.loads`
unfoldable pub loaded : {F : Type 0} → Result (Json F) → Result (Option (Json F))
loaded (ok doc) = ok (some doc)
loaded (raised (value_error message)) = ok none
loaded (raised e) = raised e
loaded stuck = stuck

module _ {F : Type 0} (P : Python F) where
  -- `int(value)`, whose messages are read by nothing
  unfoldable pub int_of : Json F → Result ℤ
  int_of null = raised (type_error [])
  int_of (boolean true) = ok (pos 1)
  int_of (boolean false) = ok (pos 0)
  int_of (integer n) = ok n
  int_of (number x) = P.int_of_float x
  int_of (string s) = P.int_of_str s
  int_of (array vs) = raised (type_error [])
  int_of (object ms) = raised (type_error [])

  -- `str(value)`
  unfoldable pub str_of : Json F → Str
  str_of null = text "None"
  str_of (boolean true) = text "True"
  str_of (boolean false) = text "False"
  str_of (integer n) = str_of_int n
  str_of (number x) = P.repr (number x)
  str_of (string s) = s
  str_of (array vs) = P.repr (array vs)
  str_of (object ms) = P.repr (object ms)

  -- the block `partialSuccess` of a response
  unfoldable pub read_partial : SignalKind → Json F → Result (Option PartialSuccess)
  unfolding get_or rejected_key zero_if_malformed int_of str_of
  read_partial kind (object (member k v ms)) =
      let block = member k v ms in
      zero_if_malformed (int_of (get_or (rejected_key kind) (integer (pos 0)) block))
      >>= λ rejected. ok (
          some (record {
            rejected = rejected;
            message = str_of (get_or (text "errorMessage") (string []) block);
          }))
  read_partial kind _ = ok none

  unfoldable pub read_response : SignalKind → Option (Json F) → Result (Option PartialSuccess)
  unfolding get_or read_partial
  read_response kind (some (object ms)) = read_partial kind (get_or (text "partialSuccess") null ms)
  read_response kind _ = ok none

  -- `decode_response`
  unfoldable pub decode_json_response : SignalKind → Bytes → Result (Option PartialSuccess)
  unfolding loaded read_response
  decode_json_response kind body =
      if is_empty body then ok none else loaded (P.loads body) >>= λ doc. read_response kind doc

-- `encode`, and the class with its properties
module _ (R : Floats) (P : Python (R.F)) where
  unfoldable pub encode_json : Envelopes R.F → Result Bytes
  unfolding encode_resource_metrics encode_resource_logs encode_resource_spans
  encode_json (of_metrics data_) = encode_resource_metrics R P.b64 data_ >>= λ doc. P.dumps doc
  encode_json (of_logs data_) = P.dumps (encode_resource_logs P.b64 data_)
  encode_json (of_traces data_) = P.dumps (encode_resource_spans P.b64 data_)

  unfoldable pub json_encoder : Encoder R.F
  unfolding encode_json decode_json_response
  json_encoder = record {
    content_type = text "application/json";
    encode = encode_json;
    decode_response = decode_json_response P;
  }
