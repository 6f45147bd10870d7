-- ===== src/Encoding/Agree/Values.antt =====
-- The JSON and the protobuf encoding of values of data points, and of the buckets of an exponential histogram.
use asyncio_otlp_client.Base.{
  ◌≡◌, refl, ap, ◌∙◌, true, Option, none, some, text, str_eq, Str, arith, Agree, both_refuse,
  Agree-ok,
}
use asyncio_otlp_client.Base.Int.{ℤ, str_of_int}
use asyncio_otlp_client.Base.Decimal.{read_int_text-str_of_int, is_empty-str_of_int}
use asyncio_otlp_client.Floats.{Floats, HasSignedZeros}
use asyncio_otlp_client.Model.Metrics.{Number, int_number, float_number, bool_number, Buckets}
use asyncio_otlp_client.Encoding.Json.Tree.{Json, null, number, Fields, omit_empty, kept}
use asyncio_otlp_client.Encoding.Json.Common.{u64, optional_number}
use asyncio_otlp_client.Encoding.Json.Points.{
  value_field, nonzero_u64, bucket_fields, encode_buckets, kept_number,
}
use asyncio_otlp_client.Encoding.Proto.Points.{
  NumberMessage, as_int, as_double, buckets_is_empty, buckets_message, number_message,
}
use asyncio_otlp_client.Encoding.Reader.Fields.{get, read_u64, read_int, read_optional, read_list}
use asyncio_otlp_client.Encoding.Reader.Common.{Base64}
use asyncio_otlp_client.Encoding.Reader.Points.{
  read_double, read_number_at, read_number, read_buckets, zero_double,
}
use asyncio_otlp_client.Encoding.Agree.Fields.{
  value_of, has_key, distinct, seen, read-at, read_u64-seen, read_u64-u64, read_int-seen,
  read_list-seen_back, seen_text, seen-null,
}
use asyncio_otlp_client.Encoding.Agree.Kept.{
  nothing_kept, read_object-seen, kept-nonzero_int, kept-each,
}

module _ (F : Type 0) where
  -- the entry that an argument is written as
  unfoldable pub field_of : NumberMessage F → Str × Json F
  field_of (as_int n) = (text "asInt", u64 n)
  field_of (as_double x) = (text "asDouble", number x)

  -- Both encoders take the same values, and refuse a bool.
  pub value_field-number_message :
      (message : Str) (n : Number F)
      → Agree (λ field v. field ≡ field_of v) (value_field message n) (number_message message n)
  unfolding value_field number_message field_of
  value_field-number_message message (int_number n) = Agree-ok refl
  value_field-number_message message (float_number x) = Agree-ok refl
  value_field-number_message message (bool_number b) = both_refuse message message refl refl

  pub read_u64-seen_nonzero : (n : ℤ) → read_u64 {F = F} (seen (nonzero_u64 n)) ≡ n
  unfolding nonzero_u64 read_u64 seen kept
  read_u64-seen_nonzero n = ground (arith, read_u64-seen F n)

  pub read_optional_number-seen :
      (z : F) (o : Option F) → read_optional (read_double z) (seen (optional_number o)) ≡ o
  unfolding read_optional read_double seen kept optional_number
  read_optional_number-seen z none = refl
  read_optional_number-seen z (some x) = refl

  pub read_double-number : (z x : F) → read_double z (number x) ≡ x
  unfolding read_double
  read_double-number z x = refl

  buckets_is_empty-nothing_kept :
      (b : Buckets) → nothing_kept {F = F} (bucket_fields b) ≡ buckets_is_empty b
  unfolding nothing_kept bucket_fields buckets_is_empty
  buckets_is_empty-nothing_kept b =
      ground (arith, kept-nonzero_int F b.offset, kept-each {F = F} u64 b.bucket_counts)

  read_buckets-bucket_fields :
      (b : Buckets)
      → read_buckets {F = F} (omit_empty (bucket_fields b))
        ≡ record { offset = b.offset; bucket_counts = b.bucket_counts }
  unfolding text str_eq value_of has_key distinct read_buckets bucket_fields
  read_buckets-bucket_fields b =
      let fs = bucket_fields {F = F} b in
      λ i. record {
        offset = read-at read_int (text "offset") fs refl (read_int-seen F b.offset) i;
        bucket_counts =
            read-at (read_list read_u64) (text "bucketCounts") fs refl
              (read_list-seen_back read_u64 u64 (read_u64-u64 F) b.bucket_counts) i;
      }

  -- Buckets are set in both encodings, or in neither.
  pub read_buckets-seen :
      (b : Buckets)
      → read_optional {F = F} read_buckets (seen (encode_buckets b)) ≡ buckets_message b
  unfolding encode_buckets buckets_message
  read_buckets-seen b =
      read_object-seen read_buckets (bucket_fields b) (buckets_is_empty-nothing_kept b)
        (read_buckets-bucket_fields b)

module _ {F : Type 0} where
  pub read_number-as_int :
      (fs : Fields F) (n : ℤ)
      → distinct fs ≡ true
      → value_of (text "asInt") fs ≡ u64 n
      → read_number (omit_empty fs) ≡ some (as_int n)
  unfolding read_number read_number_at
  read_number-as_int fs n d e =
      ap (λ j. read_number_at j (get (text "asDouble") (omit_empty fs)))
        (read-at (λ j. j) (text "asInt") fs d
          (ap seen e ∙ seen_text (str_of_int n) (is_empty-str_of_int n)))
      ∙ ap (λ k. some (as_int k)) (read_int_text-str_of_int n)

  pub read_number-as_double :
      (fs : Fields F) (x : F)
      → distinct fs ≡ true
      → value_of (text "asInt") fs ≡ null
      → value_of (text "asDouble") fs ≡ number x
      → read_number (omit_empty fs) ≡ some (as_double x)
  unfolding read_number read_number_at seen kept
  read_number-as_double fs x d e f = λ i.
      read_number_at (read-at (λ j. j) (text "asInt") fs d (ap seen e ∙ seen-null) i)
        (read-at (λ j. j) (text "asDouble") fs d (ap seen f) i)

module _ (R : Floats) (B : Base64) (zeros : HasSignedZeros R) where
  -- A number that JSON omits is the one that protobuf takes for a field that is not set.
  pub read_double-seen :
      (x : R.F) → read_double (zero_double R B) (seen (kept_number R B.encode x)) ≡ x
  unfolding read_double seen kept kept_number
  read_double-seen x = ground (arith, zeros.positive_zero x)
