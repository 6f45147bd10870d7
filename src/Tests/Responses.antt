-- ===== src/Tests/Responses.antt =====
-- Responses of a collector, decoded.
use asyncio_otlp_client.Base.{
  ℕ, ◌≡◌, refl, some, [], ◌∷◌, text, ok, raised, Result, value_error, other_error, inl, inr,
  Bool-cases, ◌⊎◌, ◌==◌, if◌then◌else◌, str_eq,
}
use asyncio_otlp_client.Base.Int.{ℤ, pos, negsuc, str_of_int}
use asyncio_otlp_client.Base.Decimal.{read_int_text, read_int_text-str_of_int}
use asyncio_otlp_client.Signals.{logs}
use asyncio_otlp_client.Model.Common.{Bytes}
use asyncio_otlp_client.Encoding.Json.Tree.{Json, number, object, member, no_members}
use asyncio_otlp_client.Encoding.Json.Common.{hex_id}
use asyncio_otlp_client.Encoding.Json.Encoder.{
  Python, decode_json_response, get_or, rejected_key, zero_if_malformed,
}
use asyncio_otlp_client.Encoding.Proto.Encoder.{
  Protobuf, PartialMessage, decode_proto_response, response_type,
}
use asyncio_otlp_client.Encoding.Agree.Responses.{
  response_doc, Lenient, Returned, Overflows, IntOfFloat, decode_json_response-proto,
  decode_json_response-returns, decode_json_response-overflow,
}

-- A response whose body begins with 1 has the count -3; 9 begins one whose count is the float 7, which
-- stands in for an infinite one; other bodies are not JSON.
abbrev refused : PartialMessage
refused = record { rejected = negsuc 2; error_message = text "bad" }

abbrev endless : Json ℕ
endless = object (
    member (text "partialSuccess")
      (object (member (text "rejectedLogRecords") (number 7) no_members)) no_members)

abbrev load : Bytes → Result (Json ℕ)
load [] = raised (value_error [])
load (b ∷ bs) =
    if b == 1
    then ok (response_doc logs refused)
    else if b == 9
    then ok endless
    else raised (value_error (text "not JSON"))

abbrev python : Python ℕ
python = record {
  b64 = hex_id;
  dumps = λ doc. ok [];
  loads = load;
  int_of_float = λ x. if x == 7 then raised (other_error (text "infinity")) else ok (pos x);
  int_of_str = λ s. ok (read_int_text s);
  repr = λ v. [];
}

abbrev protobuf : Protobuf ℕ
protobuf = record {
  serialize_metrics = λ request. ok [];
  serialize_logs = λ request. ok [];
  serialize_traces = λ request. ok [];
  from_string = λ kind body. some refused;
}

int_of_str-str_of_int : (n : ℤ) → python.int_of_str (str_of_int n) ≡ ok n
int_of_str-str_of_int n = rw (read_int_text-str_of_int n) refl

int_of_float-IntOfFloat : IntOfFloat python
unfolding Lenient zero_if_malformed
int_of_float-IntOfFloat x = elim (Bool-cases (x == 7)) [
  | inl infinite ↦ inr (text "infinity", rw infinite refl)
  | inr whole ↦ inl (pos x, rw whole refl)
]

decode_json_response-proto_example :
    decode_json_response python logs (1 ∷ []) ≡ decode_proto_response protobuf logs (8 ∷ [])
unfolding response_type
decode_json_response-proto_example =
    decode_json_response-proto python int_of_str-str_of_int protobuf logs refused (1 ∷ []) (8 ∷ [])
      refl refl refl refl refl

decode_json_response-returns_example :
    Returned (decode_json_response python logs (9 ∷ []))
    ⊎ Overflows python (decode_json_response python logs (9 ∷ []))
unfolding Lenient zero_if_malformed
decode_json_response-returns_example =
    decode_json_response-returns python (λ s. (read_int_text s, refl)) int_of_float-IntOfFloat logs
      (9 ∷ []) (inl (endless, refl))

decode_json_response-overflow_example :
    decode_json_response python logs (9 ∷ []) ≡ raised (other_error (text "infinity"))
unfolding text str_eq get_or rejected_key
decode_json_response-overflow_example =
    decode_json_response-overflow python logs (9 ∷ [])
      (member (text "partialSuccess")
        (object (member (text "rejectedLogRecords") (number 7) no_members)) no_members)
      (text "rejectedLogRecords") (number 7) no_members 7 (text "infinity") refl refl refl refl refl
