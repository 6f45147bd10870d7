-- ===== src/Encoding/Json/Tree.antt =====
-- The Python values that a JSON document is made of, and `omit_empty` of
-- src/otlp_client/encoding/primitives.py. `null` is `None`.
use asyncio_otlp_client.Base.{ℕ, ◌==◌, Bool, true, false, List, [], ◌∷◌, map, Str, if◌then◌else◌}
use asyncio_otlp_client.Base.Int.{ℤ, pos}
use asyncio_otlp_client.Base.Int as Int

mutual
  pub data Json (F : Type 0) : Type 0 where
    null : Json F
    boolean : Bool → Json F
    integer : ℤ → Json F
    number : F → Json F
    string : Str → Json F
    array : Items F → Json F
    object : Members F → Json F

  pub data Items (F : Type 0) : Type 0 where
    no_items : Items F
    item : Json F → Items F → Items F

  pub data Members (F : Type 0) : Type 0 where
    no_members : Members F
    member : Str → Json F → Members F → Members F

-- The fields of a dict display, in its order.
abbrev pub Fields : Type 0 → Type 0
Fields F = List (Str × Json F)

module _ {F : Type 0} where
  unfoldable pub items : List (Json F) → Items F
  items [] = no_items
  items (v ∷ vs) = item v (items vs)

  -- a list of values
  unfoldable pub list : List (Json F) → Json F
  unfolding items
  list vs = array (items vs)

  -- `[f(x) for x in xs]`
  abbrev pub each : {A : Type 0} → (A → Json F) → List A → Json F
  each f xs = list (map f xs)

  unfoldable pub members : Fields F → Members F
  members [] = no_members
  members ((k, v) ∷ fs) = member k v (members fs)

  -- a dict as it is written
  unfoldable pub dict : Fields F → Json F
  unfolding members
  dict fs = object (members fs)

  -- `v is not None and v != "" and v != [] and v != {}`
  unfoldable pub kept : Json F → Bool
  kept null = false
  kept (boolean b) = true
  kept (integer n) = true
  kept (number x) = true
  kept (string []) = false
  kept (string (c ∷ s)) = true
  kept (array no_items) = false
  kept (array (item v vs)) = true
  kept (object no_members) = false
  kept (object (member k v ms)) = true

  unfoldable pub kept_members : Fields F → Members F
  unfolding kept
  kept_members [] = no_members
  kept_members ((k, v) ∷ fs) =
      let rest = kept_members fs in if kept v then member k v rest else rest

  unfoldable pub omit_empty : Fields F → Json F
  unfolding kept_members
  omit_empty fs = object (kept_members fs)

  -- `n or None` of an int
  unfoldable pub nonzero : ℕ → Json F
  nonzero n = if n == 0 then null else integer (pos n)

  unfoldable pub nonzero_int : ℤ → Json F
  nonzero_int n = if Int.is_zero n then null else integer n
