-- ===== src/Encoding/Agree/Responses.antt =====
-- `decode_response` of the two encoders.
use asyncio_otlp_client.Base.{
  ◌≡◌, ◌⊎◌, inl, inr, refl, ap, true, false, Option, none, some, [], ◌∷◌, Str, text, str_eq, Result,
  ok, raised, ◌>>=◌, value_error, other_error, is_empty, arith, Bool-cases, subst, sym,
}
use asyncio_otlp_client.Base.Int.{ℤ, pos, negsuc, str_of_int}
use asyncio_otlp_client.Base.Decimal.{is_empty-str_of_int}
use asyncio_otlp_client.Signals.{SignalKind, metrics, logs, traces, profiles}
use asyncio_otlp_client.Model.Common.{Bytes}
use asyncio_otlp_client.Encoding.Json.Tree.{
  Json, null, boolean, integer, number, string, array, object, Members, no_members, member, dict,
  members, kept, kept_members, omit_empty,
}
use asyncio_otlp_client.Encoding.Json.Points.{nonzero_u64}
use asyncio_otlp_client.Encoding.Json.Encoder.{
  Python, get_or, rejected_key, zero_if_malformed, loaded, int_of, str_of, read_partial,
  read_response, decode_json_response,
}
use asyncio_otlp_client.Encoding.Agree.Kept.{kept-string}
use asyncio_otlp_client.Encoding.Proto.Encoder.{
  PartialMessage, Protobuf, response_type, reported, decode_proto_response,
}

-- The field of the count in the response messages of OTLP/JSON.
abbrev pub count_key : SignalKind → Str
count_key metrics = text "rejectedDataPoints"
count_key logs = text "rejectedLogRecords"
count_key traces = text "rejectedSpans"
count_key profiles = text "rejectedProfiles"

-- A response as a collector writes it in OTLP/JSON: the count is a decimal string, and a field with its
-- default is left out.
unfoldable pub response_doc : {F : Type 0} → SignalKind → PartialMessage → Json F
unfolding dict omit_empty nonzero_u64
response_doc kind p = dict (
    (
      text "partialSuccess",
      omit_empty (
          (count_key kind, nonzero_u64 p.rejected)
          ∷ (text "errorMessage", string p.error_message)
          ∷ []),
    )
    ∷ [])

-- The key of the count is the one that is read, and not the key of the text.
key_differs :
    (kind : SignalKind)
    → (str_eq (text "errorMessage") (rejected_key kind) ≡ false)
      × (str_eq (count_key kind) (text "errorMessage") ≡ false)
      × (str_eq (count_key kind) (rejected_key kind) ≡ true)
unfolding text str_eq rejected_key
key_differs metrics = (refl, refl, refl)
key_differs logs = (refl, refl, refl)
key_differs traces = (refl, refl, refl)
key_differs profiles = (refl, refl, refl)

module _ {F : Type 0} (P : Python F) (reads : (n : ℤ) → P.int_of_str (str_of_int n) ≡ ok n) where
  read_response-response_doc :
      (kind : SignalKind) (p : PartialMessage)
      → read_response P kind (some (response_doc kind p)) ≡ ok (reported (some p))
  unfolding text str_eq dict members omit_empty kept_members kept nonzero_u64 get_or
      zero_if_malformed int_of str_of read_partial read_response response_doc reported
  read_response-response_doc kind p =
      go p.rejected p.error_message (key_differs kind) (reads p.rejected)
    where
      go :
          (n : ℤ) (m : Str)
          → (str_eq (text "errorMessage") (rejected_key kind) ≡ false)
            × (str_eq (count_key kind) (text "errorMessage") ≡ false)
            × (str_eq (count_key kind) (rejected_key kind) ≡ true)
          → P.int_of_str (str_of_int n) ≡ ok n
          → read_response P kind
              (some (response_doc kind (record { rejected = n; error_message = m })))
            ≡ ok (reported (some (record { rejected = n; error_message = m })))
      go (pos n) [] (a, b, c) r =
          ground (arith, kept-string F (str_of_int (pos n)), is_empty-str_of_int (pos n))
      go (pos n) (d ∷ m) (a, b, c) r =
          ground (arith, kept-string F (str_of_int (pos n)), is_empty-str_of_int (pos n))
      go (negsuc n) [] (a, b, c) r =
          ground (arith, kept-string F (str_of_int (negsuc n)), is_empty-str_of_int (negsuc n))
      go (negsuc n) (d ∷ m) (a, b, c) r =
          ground (arith, kept-string F (str_of_int (negsuc n)), is_empty-str_of_int (negsuc n))

  -- A response that a collector writes in either encoding is reported alike by the two decoders, where
  -- the libraries read back what the collector wrote and `int` reads a decimal.
  pub decode_json_response-proto :
      (Q : Protobuf F) (kind : SignalKind) (p : PartialMessage) (json_body proto_body : Bytes)
      → response_type kind ≡ ok kind
      → is_empty json_body ≡ false
      → is_empty proto_body ≡ false
      → P.loads json_body ≡ ok (response_doc kind p)
      → Q.from_string kind proto_body ≡ some p
      → decode_json_response P kind json_body ≡ decode_proto_response Q kind proto_body
  unfolding decode_json_response decode_proto_response loaded
  decode_json_response-proto Q kind p json_body proto_body t e f l q =
      rw (e, f, l, t, q) (read_response-response_doc kind p)

-- What `int` makes of a value, a `TypeError` or a `ValueError` counting as 0.
unfoldable pub Lenient : Result ℤ → Type 0
Lenient r = (n : ℤ) × (zero_if_malformed r ≡ ok n)

-- The code returns.
abbrev pub Returned : {A : Type 0} → Result A → Type 0
Returned {A} r = (a : A) × (r ≡ ok a)

module _ {F : Type 0} (P : Python F) where
  -- The code raises what `int` of a float raises, which is no `TypeError` and no `ValueError`.
  abbrev pub Overflows : {A : Type 0} → Result A → Type 0
  Overflows r =
      (x : F) × (t : Str) × (P.int_of_float x ≡ raised (other_error t))
      × (r ≡ raised (other_error t))

  abbrev pub LenientOr : Result ℤ → Type 0
  LenientOr r = Lenient r ⊎ Overflows r

  -- `int` of a float returns, or raises a `TypeError`, a `ValueError` or another error.
  abbrev pub IntOfFloat : Type 0
  IntOfFloat =
      (x : F)
      → Lenient (P.int_of_float x) ⊎ ((t : Str) × (P.int_of_float x ≡ raised (other_error t)))

  int_of-LenientOr :
      ((s : Str) → Lenient (P.int_of_str s)) → IntOfFloat → (v : Json F) → LenientOr (int_of P v)
  unfolding Lenient int_of zero_if_malformed
  int_of-LenientOr s f null = inl (pos 0, refl)
  int_of-LenientOr s f (boolean true) = inl (pos 1, refl)
  int_of-LenientOr s f (boolean false) = inl (pos 0, refl)
  int_of-LenientOr s f (integer n) = inl (n, refl)
  int_of-LenientOr s f (number x) = elim (f x) [
    | inl lenient ↦ inl lenient
    | inr (t, e) ↦ inr (x, t, e, e)
  ]
  int_of-LenientOr s f (string t) = inl (s t)
  int_of-LenientOr s f (array vs) = inl (pos 0, refl)
  int_of-LenientOr s f (object ms) = inl (pos 0, refl)

  abbrev Decoded : {A : Type 0} → Result A → Type 0
  Decoded r = Returned r ⊎ Overflows r

  -- what is made of a count
  counted :
      {A : Type 0} (r : Result ℤ) (f : ℤ → A)
      → LenientOr r
      → Decoded (zero_if_malformed r >>= λ n. ok (f n))
  unfolding Lenient zero_if_malformed
  counted r f (inl (n, e)) = inl (f n, ap (λ r. r >>= λ n. ok (f n)) e)
  counted r f (inr (x, t, e, o)) = inr (x, t, e, ap (λ r. zero_if_malformed r >>= λ n. ok (f n)) o)

  read_partial-Decoded :
      ((s : Str) → Lenient (P.int_of_str s))
      → IntOfFloat
      → (kind : SignalKind) (v : Json F) → Decoded (read_partial P kind v)
  unfolding read_partial
  read_partial-Decoded s f kind (object (member k v ms)) =
      let block = member k v ms in
      counted (int_of P (get_or (rejected_key kind) (integer (pos 0)) block))
        (λ rejected. some (record {
          rejected = rejected;
          message = str_of P (get_or (text "errorMessage") (string []) block);
        }))
        (int_of-LenientOr s f (get_or (rejected_key kind) (integer (pos 0)) block))
  read_partial-Decoded s f kind (object no_members) = inl (none, refl)
  read_partial-Decoded s f kind null = inl (none, refl)
  read_partial-Decoded s f kind (boolean b) = inl (none, refl)
  read_partial-Decoded s f kind (integer n) = inl (none, refl)
  read_partial-Decoded s f kind (number x) = inl (none, refl)
  read_partial-Decoded s f kind (string t) = inl (none, refl)
  read_partial-Decoded s f kind (array vs) = inl (none, refl)

  read_response-Decoded :
      ((s : Str) → Lenient (P.int_of_str s))
      → IntOfFloat
      → (kind : SignalKind) (doc : Option (Json F)) → Decoded (read_response P kind doc)
  unfolding read_response
  read_response-Decoded s f kind (some (object ms)) = read_partial-Decoded s f kind _
  read_response-Decoded s f kind none = inl (none, refl)
  read_response-Decoded s f kind (some null) = inl (none, refl)
  read_response-Decoded s f kind (some (boolean b)) = inl (none, refl)
  read_response-Decoded s f kind (some (integer n)) = inl (none, refl)
  read_response-Decoded s f kind (some (number x)) = inl (none, refl)
  read_response-Decoded s f kind (some (string t)) = inl (none, refl)
  read_response-Decoded s f kind (some (array vs)) = inl (none, refl)

  -- Decoding a JSON response whose `json.loads` returns a document or raises a `ValueError` returns,
  -- whatever the document is, unless `int` of a float raises another error, as it does of infinity; then
  -- that error is raised. `int` of a string raises a `TypeError` or a `ValueError` at most.
  pub decode_json_response-returns :
      ((s : Str) → Lenient (P.int_of_str s))
      → IntOfFloat
      → (kind : SignalKind) (body : Bytes)
      → Returned (P.loads body) ⊎ ((t : Str) × (P.loads body ≡ raised (value_error t)))
      → Returned (decode_json_response P kind body) ⊎ Overflows (decode_json_response P kind body)
  unfolding decode_json_response loaded
  decode_json_response-returns s f kind body h = elim (Bool-cases (is_empty body)) [
    | inl empty ↦ inl (none, rw empty refl)
    | inr full ↦ elim h [
      | inl (doc, l) ↦
          subst Decoded (sym (as_read doc full l)) (read_response-Decoded s f kind (some doc))
      | inr (t, l) ↦ subst Decoded (sym (as_unread t full l)) (read_response-Decoded s f kind none)
    ]
  ]
    where
      as_read :
          (doc : Json F)
          → is_empty body ≡ false
          → P.loads body ≡ ok doc
          → decode_json_response P kind body ≡ read_response P kind (some doc)
      as_read doc full l = rw (full, l) refl

      as_unread :
          (t : Str)
          → is_empty body ≡ false
          → P.loads body ≡ raised (value_error t)
          → decode_json_response P kind body ≡ read_response P kind none
      as_unread t full l = rw (full, l) refl

  -- A count that is a float whose `int` raises another exception, as the `OverflowError` of an infinite
  -- one, makes decoding raise it.
  pub decode_json_response-overflow :
      (kind : SignalKind) (body : Bytes) (ms : Members F) (k : Str) (v : Json F) (block : Members F)
      (x : F) (e : Str)
      → is_empty body ≡ false
      → P.loads body ≡ ok (object ms)
      → get_or (text "partialSuccess") null ms ≡ object (member k v block)
      → get_or (rejected_key kind) (integer (pos 0)) (member k v block) ≡ number x
      → P.int_of_float x ≡ raised (other_error e)
      → decode_json_response P kind body ≡ raised (other_error e)
  unfolding decode_json_response loaded read_response read_partial int_of zero_if_malformed
  decode_json_response-overflow kind body ms k v block x e full l p c o = rw (full, l, p, c, o) refl
