-- ===== src/Encoding/Agree/Fields.antt =====
-- What the reader finds in an object that `omit_empty` made, and what it reads of each kind of field.
use asyncio_otlp_client.Base.{
  ℕ, ◌/◌, ◌%◌, ◌≡◌, refl, ap, ◌∙◌, Bool, true, false, ◌&&◌, ◌||◌, not, Option, none, some, List, [],
  ◌∷◌, map, or_default, Str, str_eq, str_eq_iff, is_empty, if◌then◌else◌, arith,
}
use asyncio_otlp_client.Base.Int.{ℤ, pos, str_of_int}
use asyncio_otlp_client.Base.Decimal.{read_int_text-str_of_int, is_empty-str_of_int}
use asyncio_otlp_client.Model.Common.{Bytes}
use asyncio_otlp_client.Encoding.Json.Tree.{
  Json, null, string, Fields, items, list, each, kept, kept_members, omit_empty, nonzero,
  nonzero_int,
}
use asyncio_otlp_client.Encoding.Json.Common.{
  hex_digit, hex_id, optional_hex, optional_string, u64, optional_u64,
}
use asyncio_otlp_client.Encoding.Reader.Fields.{
  hex_value, read_hex_text, find, get, read_text, read_u64, read_int, read_nat, read_hex,
  read_items, read_list,
}

module _ {F : Type 0} where
  -- the value that a field is written with
  unfoldable pub value_of : Str → Fields F → Json F
  unfolding str_eq
  value_of k [] = null
  value_of k ((j, v) ∷ fs) = if str_eq j k then v else value_of k fs

  unfoldable pub has_key : Str → Fields F → Bool
  has_key k [] = false
  has_key k ((j, v) ∷ fs) = str_eq j k || has_key k fs

  -- No key is written twice.
  unfoldable pub distinct : Fields F → Bool
  unfolding has_key str_eq
  distinct [] = true
  distinct ((k, v) ∷ fs) = not (has_key k fs) && distinct fs

  -- what a reader sees of a value: a value that is omitted is `null` for it
  unfoldable pub seen : Json F → Json F
  seen v = if kept v then v else null

  pub seen-null : seen null ≡ null
  unfolding seen kept
  seen-null = refl

  value_of-new : (k : Str) (fs : Fields F) → has_key k fs ≡ false → value_of k fs ≡ null
  unfolding has_key value_of
  value_of-new k [] h = refl
  value_of-new k ((j, v) ∷ fs) h = ground (arith, value_of-new k fs)

  find-kept_members :
      (k : Str) (fs : Fields F)
      → distinct fs ≡ true
      → find k (kept_members fs) ≡ seen (value_of k fs)
  unfolding find kept_members value_of distinct seen
  find-kept_members k [] h = ground (arith, seen-null)
  find-kept_members k ((j, v) ∷ fs) h = ground (
    arith,
    str_eq_iff j k,
    find-kept_members k fs,
    value_of-new j fs,
    value_of-new k fs,
    seen-null,
  )

  -- Reading a field of an object reads what is seen of the value that it was written with.
  pub read-at :
      {M : Type 0} (read : Json F → M) (k : Str) (fs : Fields F) {m : M}
      → distinct fs ≡ true
      → read (seen (value_of k fs)) ≡ m
      → read (get k (omit_empty fs)) ≡ m
  unfolding get omit_empty
  read-at read k fs h e = ap read (find-kept_members k fs h) ∙ e

  -- A text that is not empty is kept.
  pub seen_text : (s : Str) → is_empty s ≡ false → seen (string s) ≡ string s
  unfolding seen kept
  seen_text [] h = cc
  seen_text (c ∷ s) h = refl

module _ (F : Type 0) where
  pub read_text-seen : (s : Str) → read_text {F = F} (seen (string s)) ≡ s
  unfolding read_text seen kept
  read_text-seen [] = refl
  read_text-seen (c ∷ s) = refl

  pub read_text-seen_optional :
      (o : Option Str) → read_text {F = F} (seen (optional_string o)) ≡ or_default [] o
  unfolding read_text seen kept optional_string
  read_text-seen_optional none = refl
  read_text-seen_optional (some s) = read_text-seen s

  pub read_u64-u64 : (n : ℤ) → read_u64 {F = F} (u64 n) ≡ n
  unfolding read_u64
  read_u64-u64 n = read_int_text-str_of_int n

  pub read_u64-seen : (n : ℤ) → read_u64 {F = F} (seen (u64 n)) ≡ n
  unfolding read_u64
  read_u64-seen n =
      rw (seen_text (str_of_int n) (is_empty-str_of_int n)) (read_int_text-str_of_int n)

  pub read_u64-seen_optional :
      (o : Option ℤ) → read_u64 {F = F} (seen (optional_u64 o)) ≡ or_default (pos 0) o
  unfolding read_u64 seen kept optional_u64
  read_u64-seen_optional none = refl
  read_u64-seen_optional (some n) = read_u64-seen n

  pub read_nat-seen : (n : ℕ) → read_nat {F = F} (seen (nonzero n)) ≡ n
  unfolding read_nat seen kept nonzero
  read_nat-seen n = ground arith

  pub read_int-seen : (n : ℤ) → read_int {F = F} (seen (nonzero_int n)) ≡ n
  unfolding read_int seen kept nonzero_int
  read_int-seen n = ground arith

pub hex_digit-read : (d : ℕ) → hex_value (hex_digit d) ≡ d
unfolding hex_value hex_digit
hex_digit-read d = ground arith

pub read_hex_text-hex_id : (bs : Bytes) → read_hex_text (hex_id bs) ≡ bs
unfolding read_hex_text hex_id
read_hex_text-hex_id [] = refl
read_hex_text-hex_id (b ∷ bs) =
    rw (hex_digit-read (b / 16), hex_digit-read (b % 16)) (ground (arith, read_hex_text-hex_id bs))

module _ (F : Type 0) where
  pub read_hex-seen : (bs : Bytes) → read_hex {F = F} (seen (string (hex_id bs))) ≡ bs
  unfolding read_hex seen kept hex_id
  read_hex-seen [] = refl
  read_hex-seen (b ∷ bs) = read_hex_text-hex_id (b ∷ bs)

  pub read_hex-seen_optional :
      (o : Option Bytes) → read_hex {F = F} (seen (optional_hex o)) ≡ or_default [] o
  unfolding read_hex seen kept optional_hex
  read_hex-seen_optional none = refl
  read_hex-seen_optional (some []) = refl
  read_hex-seen_optional (some (b ∷ bs)) = read_hex-seen (b ∷ bs)

module _ {F : Type 0} where
  read_items-map :
      {A M : Type 0} (read : Json F → M) (write : A → Json F) (m : A → M) (xs : List A)
      → ((x : A) → read (write x) ≡ m x)
      → read_items read (items (map write xs)) ≡ map m xs
  unfolding read_items items
  read_items-map read write m [] h = refl
  read_items-map read write m (x ∷ xs) h = λ i. h x i ∷ read_items-map read write m xs h i

  pub read_each :
      {A M : Type 0} (read : Json F → M) (write : A → Json F) (m : A → M)
      → ((x : A) → read (write x) ≡ m x)
      → (xs : List A) → read_list read (each write xs) ≡ map m xs
  unfolding read_list list
  read_each read write m h xs = read_items-map read write m xs h

  -- A list is read element by element.
  pub read_list-seen :
      {A M : Type 0} (read : Json F → M) (write : A → Json F) (m : A → M)
      → ((x : A) → read (write x) ≡ m x)
      → (xs : List A) → read_list read (seen (each write xs)) ≡ map m xs
  unfolding read_list seen kept list items
  read_list-seen read write m h [] = refl
  read_list-seen read write m h (x ∷ xs) = read_items-map read write m (x ∷ xs) h

map-itself : {A : Type 0} (xs : List A) → map (λ x. x) xs ≡ xs
map-itself [] = refl
map-itself (x ∷ xs) = ap (λ ys. x ∷ ys) (map-itself xs)

module _ {F : Type 0} where
  -- A list of values that are read back as they were.
  pub read_list-seen_back :
      {A : Type 0} (read : Json F → A) (write : A → Json F)
      → ((x : A) → read (write x) ≡ x)
      → (xs : List A) → read_list read (seen (each write xs)) ≡ xs
  read_list-seen_back read write h xs = read_list-seen read write (λ x. x) h xs ∙ map-itself xs

  -- A list of values that the encoder has made.
  pub read_list-made :
      {M : Type 0} (read : Json F → M) (js : List (Json F)) → read_list read (list js) ≡ map read js
  unfolding read_list list read_items items
  read_list-made read [] = refl
  read_list-made read (j ∷ js) = ap (λ ms. read j ∷ ms) (read_list-made read js)

  pub read_list-seen_made :
      {M : Type 0} (read : Json F → M) (js : List (Json F))
      → read_list read (seen (list js)) ≡ map read js
  unfolding read_list list items seen kept
  read_list-seen_made read [] = refl
  read_list-seen_made read (j ∷ js) = read_list-made read (j ∷ js)
