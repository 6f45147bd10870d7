-- ===== src/Encoding/Reader/Fields.antt =====
-- The fields of a JSON object and their values.
use asyncio_otlp_client.Base.{
  ℕ, ◌+◌, ◌-◌, ◌*◌, Bool, false, Option, none, some, List, [], ◌∷◌, ltb, Str, str_eq, if◌then◌else◌,
}
use asyncio_otlp_client.Base.Int.{ℤ, pos}
use asyncio_otlp_client.Base.Decimal.{read_int_text}
use asyncio_otlp_client.Model.Common.{Bytes}
use asyncio_otlp_client.Encoding.Json.Tree.{
  Json, null, boolean, integer, string, array, object, Items, no_items, item, Members, no_members,
  member,
}

-- the number of a hexadecimal digit
unfoldable pub hex_value : ℕ → ℕ
hex_value c = if ltb c b'a' then c - b'0' else c - b'a' + 10

unfoldable pub read_hex_text : Str → Bytes
unfolding hex_value
read_hex_text (c ∷ d ∷ s) = (hex_value c * 16 + hex_value d) ∷ read_hex_text s
read_hex_text _ = []

module _ {F : Type 0} where
  unfoldable pub find : Str → Members F → Json F
  find k no_members = null
  find k (member j v ms) = if str_eq j k then v else find k ms

  -- the value of a key, or `null`
  unfoldable pub get : Str → Json F → Json F
  unfolding find
  get k (object ms) = find k ms
  get k _ = null

  unfoldable pub read_text : Json F → Str
  read_text (string s) = s
  read_text _ = []

  unfoldable pub read_u64 : Json F → ℤ
  read_u64 (string s) = read_int_text s
  read_u64 _ = pos 0

  unfoldable pub read_int : Json F → ℤ
  read_int (integer n) = n
  read_int _ = pos 0

  -- a number that is not negative
  unfoldable pub read_nat : Json F → ℕ
  read_nat (integer (pos n)) = n
  read_nat _ = 0

  unfoldable pub read_bool : Json F → Bool
  read_bool (boolean b) = b
  read_bool _ = false

  unfoldable pub read_hex : Json F → Bytes
  unfolding read_hex_text
  read_hex (string s) = read_hex_text s
  read_hex _ = []

  unfoldable pub read_optional : {M : Type 0} → (Json F → M) → Json F → Option M
  read_optional f null = none
  read_optional f v = some (f v)

  unfoldable pub read_items : {M : Type 0} → (Json F → M) → Items F → List M
  read_items f no_items = []
  read_items f (item v vs) = f v ∷ read_items f vs

  unfoldable pub read_list : {M : Type 0} → (Json F → M) → Json F → List M
  unfolding read_items
  read_list f (array vs) = read_items f vs
  read_list f _ = []
