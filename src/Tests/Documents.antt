-- ===== src/Tests/Documents.antt =====
-- Exports of a gauge in JSON, and of a batch of gauges in protobuf, to a collector that reads both.
use asyncio_otlp_client.Base.{
  ℕ, ◌≡◌, refl, ap, sym, false, true, Option, none, some, [], ◌∷◌, Str, text, str_eq, str_eq_iff,
  Bool, ok, Result,
}
use asyncio_otlp_client.Model.Common.{Bytes}
use asyncio_otlp_client.Client.Defs.{OtlpClient}
use asyncio_otlp_client.Http.Exports.{http_client}
use asyncio_otlp_client.Encoding.Json.Tree.{
  Json, string, array, object, Items, no_items, item, Members, no_members, member,
}
use asyncio_otlp_client.Encoding.Json.Encoder.{Python, json_encoder}
use asyncio_otlp_client.Delivery.Collector.{Parsers}
use asyncio_otlp_client.Tests.Samples.{ticks}
use asyncio_otlp_client.Tests.Delivery.{refused, python, parsers, Inbox, collector, still, zipping}

-- Two texts, and two documents of texts, arrays and objects, that are found to be the same.
same_text_by : (s t : Str) (b : Bool) → str_eq s t ≡ b → Option (s ≡ t)
same_text_by s t true e = some ((str_eq_iff s t).0 e)
same_text_by s t false e = none

same_text : (s t : Str) → Option (s ≡ t)
unfolding same_text_by
same_text s t = same_text_by s t (str_eq s t) refl

mutual
  same : (a b : Json ℕ) → Option (a ≡ b)
  same (string s) (string t) = elim (same_text s t) [ none ↦ none | some e ↦ some (ap string e) ]
  same (array xs) (array ys) = elim (same_items xs ys) [ none ↦ none | some e ↦ some (ap array e) ]
  same (object ms) (object ns) = elim (same_members ms ns) [
    | none ↦ none
    | some e ↦ some (ap object e)
  ]
  same a b = none

  same_items : (xs ys : Items ℕ) → Option (xs ≡ ys)
  same_items no_items no_items = some refl
  same_items (item x xs) (item y ys) = elim (same x y) [
    | none ↦ none
    | some e ↦ elim (same_items xs ys) [ none ↦ none | some es ↦ some (λ i. item (e i) (es i)) ]
  ]
  same_items xs ys = none

  same_members : (ms ns : Members ℕ) → Option (ms ≡ ns)
  same_members no_members no_members = some refl
  same_members (member k v ms) (member j w ns) = elim (same_text k j) [
    | none ↦ none
    | some e ↦ elim (same v w) [
      | none ↦ none
      | some e' ↦ elim (same_members ms ns) [
        | none ↦ none
        | some es ↦ some (λ i. member (e i) (e' i) (es i))
      ]
    ]
  ]
  same_members ms ns = none

-- The document of a gauge with a name and nothing else.
abbrev one : Str → Json ℕ → Members ℕ
one key value = member key value no_members

abbrev only : Json ℕ → Json ℕ
only value = array (item value no_items)

abbrev expected : Json ℕ
expected = object (
    one (text "resourceMetrics") (
      only (
        object (
          one (text "scopeMetrics") (
            only (
              object (
                one (text "metrics") (
                  only (
                    object (
                      member (text "name") (string (text "up")) (
                        one (text "gauge")
                          (object (one (text "dataPoints") (array no_items))))))))))))))

-- Python that writes this document as one byte, and refuses others.
abbrev written : {doc : Json ℕ} → Option (doc ≡ expected) → Result Bytes
written none = refused
written (some e) = ok (7 ∷ [])

abbrev dumping : Python ℕ
dumping = record python { dumps = λ doc. written (same doc expected) }

abbrev loading : Parsers ℕ
loading = record parsers { parse_json = λ b. some expected }

loaded :
    {doc : Json ℕ} (found : Option (doc ≡ expected)) (b : Bytes)
    → written found ≡ ok b
    → expected ≡ doc
loaded none b e = cc
loaded (some same) b e = sym same

abbrev json_sender : OtlpClient Inbox ℕ
json_sender = http_client ticks collector zipping (json_encoder ticks dumping) false none none still
