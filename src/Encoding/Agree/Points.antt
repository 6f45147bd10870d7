-- ===== src/Encoding/Agree/Points.antt =====
-- The JSON and the protobuf encoding of exemplars and data points.
use asyncio_otlp_client.Base.{
  ◌≡◌, refl, ap, ◌∙◌, some, List, [], map, or_default, text, str_eq, traverse, Agree, Agree-ok,
  Agree-bind, Agree-swap, Agree-traverse,
}
use asyncio_otlp_client.Base.Int.{pos}
use asyncio_otlp_client.Floats.{Floats}
use asyncio_otlp_client.Model.Metrics.{Exemplar, NumberDataPoint}
use asyncio_otlp_client.Encoding.Json.Tree.{Json, number, omit_empty}
use asyncio_otlp_client.Encoding.Json.Common.{u64}
use asyncio_otlp_client.Encoding.Json.Points.{
  exemplar_text, point_text, exemplar_fields, encode_exemplar, number_fields, encode_number_point,
}
use asyncio_otlp_client.Encoding.Proto.Common.{key_values}
use asyncio_otlp_client.Encoding.Proto.Points.{
  NumberMessage, as_int, as_double, ExemplarMessage, NumberPointMessage, exemplar_message,
  number_point_message,
}
use asyncio_otlp_client.Encoding.Reader.Fields.{read_u64, read_nat, read_hex, read_list}
use asyncio_otlp_client.Encoding.Reader.Common.{Base64, read_attributes}
use asyncio_otlp_client.Encoding.Reader.Points.{read_exemplar, read_number_point}
use asyncio_otlp_client.Encoding.Agree.Fields.{
  value_of, has_key, distinct, read-at, read_u64-seen, read_u64-seen_optional, read_nat-seen,
  read_hex-seen_optional, read_list-seen_made,
}
use asyncio_otlp_client.Encoding.Agree.Common.{read_attributes-seen}
use asyncio_otlp_client.Encoding.Agree.Values.{
  field_of, value_field-number_message, read_number-as_int, read_number-as_double,
}

module _ (R : Floats) (B : Base64) where
  -- the message of an exemplar with the value
  abbrev exemplar_with : Exemplar R.F → NumberMessage R.F → ExemplarMessage R.F
  exemplar_with e value = record {
    filtered_attributes = key_values e.filtered_attributes;
    time_unix_nano = e.time_unix_nano;
    value = some value;
    span_id = or_default [] e.span_id;
    trace_id = or_default [] e.trace_id;
  }

  read_exemplar-exemplar_fields :
      (e : Exemplar R.F) (v : NumberMessage R.F)
      → read_exemplar R B (omit_empty (exemplar_fields R B.encode e (field_of R.F v)))
        ≡ exemplar_with e v
  unfolding text str_eq value_of has_key distinct field_of read_exemplar exemplar_fields
  read_exemplar-exemplar_fields e (as_int n) =
      let fs = exemplar_fields R B.encode e (text "asInt", u64 n) in
      λ i. record {
        filtered_attributes =
            read-at (read_attributes B) (text "filteredAttributes") fs refl
              (read_attributes-seen B e.filtered_attributes) i;
        time_unix_nano =
            read-at read_u64 (text "timeUnixNano") fs refl (read_u64-seen R.F e.time_unix_nano) i;
        value = read_number-as_int fs n refl refl i;
        span_id = read-at read_hex (text "spanId") fs refl (read_hex-seen_optional R.F e.span_id) i;
        trace_id =
            read-at read_hex (text "traceId") fs refl (read_hex-seen_optional R.F e.trace_id) i;
      }
  read_exemplar-exemplar_fields e (as_double x) =
      let fs = exemplar_fields R B.encode e (text "asDouble", number x) in
      λ i. record {
        filtered_attributes =
            read-at (read_attributes B) (text "filteredAttributes") fs refl
              (read_attributes-seen B e.filtered_attributes) i;
        time_unix_nano =
            read-at read_u64 (text "timeUnixNano") fs refl (read_u64-seen R.F e.time_unix_nano) i;
        value = read_number-as_double fs x refl refl refl i;
        span_id = read-at read_hex (text "spanId") fs refl (read_hex-seen_optional R.F e.span_id) i;
        trace_id =
            read-at read_hex (text "traceId") fs refl (read_hex-seen_optional R.F e.trace_id) i;
      }

  read_exemplar-encode_exemplar :
      (e : Exemplar R.F)
      → Agree
          (λ doc m. read_exemplar R B doc ≡ m)
          (encode_exemplar R B.encode e)
          (exemplar_message e)
  unfolding encode_exemplar exemplar_message
  read_exemplar-encode_exemplar e =
      Agree-bind (value_field-number_message R.F exemplar_text e.value) (λ field v h. Agree-ok (
        ap (λ f. read_exemplar R B (omit_empty (exemplar_fields R B.encode e f))) h
        ∙ read_exemplar-exemplar_fields e v))

  -- the exemplars of a point
  pub exemplars-Agree :
      (es : List (Exemplar R.F))
      → Agree
          (λ docs ms. map (read_exemplar R B) docs ≡ ms)
          (traverse (encode_exemplar R B.encode) es)
          (traverse exemplar_message es)
  exemplars-Agree es = Agree-traverse read_exemplar-encode_exemplar es

  abbrev number_with :
      NumberDataPoint R.F → List (ExemplarMessage R.F) → NumberMessage R.F → NumberPointMessage R.F
  number_with p exemplars value = record {
    attributes = key_values p.attributes;
    time_unix_nano = p.time_unix_nano;
    start_time_unix_nano = or_default (pos 0) p.start_time_unix_nano;
    flags = p.flags;
    exemplars = exemplars;
    value = some value;
  }

  read_number_point-number_fields :
      (p : NumberDataPoint R.F) (js : List (Json R.F)) (ms : List (ExemplarMessage R.F))
      (v : NumberMessage R.F)
      → map (read_exemplar R B) js ≡ ms
      → read_number_point R B (omit_empty (number_fields R B.encode p js (field_of R.F v)))
        ≡ number_with p ms v
  unfolding text str_eq value_of has_key distinct field_of read_number_point number_fields
  read_number_point-number_fields p js ms (as_int n) h =
      let fs = number_fields R B.encode p js (text "asInt", u64 n) in
      λ i. record {
        attributes =
            read-at (read_attributes B) (text "attributes") fs refl
              (read_attributes-seen B p.attributes) i;
        time_unix_nano =
            read-at read_u64 (text "timeUnixNano") fs refl (read_u64-seen R.F p.time_unix_nano) i;
        start_time_unix_nano =
            read-at read_u64 (text "startTimeUnixNano") fs refl
              (read_u64-seen_optional R.F p.start_time_unix_nano) i;
        flags = read-at read_nat (text "flags") fs refl (read_nat-seen R.F p.flags) i;
        exemplars =
            read-at (read_list (read_exemplar R B)) (text "exemplars") fs refl
              (read_list-seen_made (read_exemplar R B) js ∙ h) i;
        value = read_number-as_int fs n refl refl i;
      }
  read_number_point-number_fields p js ms (as_double x) h =
      let fs = number_fields R B.encode p js (text "asDouble", number x) in
      λ i. record {
        attributes =
            read-at (read_attributes B) (text "attributes") fs refl
              (read_attributes-seen B p.attributes) i;
        time_unix_nano =
            read-at read_u64 (text "timeUnixNano") fs refl (read_u64-seen R.F p.time_unix_nano) i;
        start_time_unix_nano =
            read-at read_u64 (text "startTimeUnixNano") fs refl
              (read_u64-seen_optional R.F p.start_time_unix_nano) i;
        flags = read-at read_nat (text "flags") fs refl (read_nat-seen R.F p.flags) i;
        exemplars =
            read-at (read_list (read_exemplar R B)) (text "exemplars") fs refl
              (read_list-seen_made (read_exemplar R B) js ∙ h) i;
        value = read_number-as_double fs x refl refl refl i;
      }

  -- A number point is read as protobuf writes it, or both refuse it, though they look at its value and
  -- its exemplars in different orders.
  pub read_number_point-encode_number_point :
      (p : NumberDataPoint R.F)
      → Agree
          (λ doc m. read_number_point R B doc ≡ m)
          (encode_number_point R B.encode p)
          (number_point_message p)
  unfolding encode_number_point number_point_message
  read_number_point-encode_number_point p =
      Agree-swap (λ field js. omit_empty (number_fields R B.encode p js field))
        (λ v ms. number_with p ms v) (value_field-number_message R.F point_text p.value)
        (exemplars-Agree p.exemplars)
        (λ field v js ms h k.
          ap (λ f. read_number_point R B (omit_empty (number_fields R B.encode p js f))) h
          ∙ read_number_point-number_fields p js ms v k)
