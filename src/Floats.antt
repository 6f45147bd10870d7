-- ===== src/Floats.antt =====
-- Python's `float`, a parameter of the model: the operations that the package uses.
use asyncio_otlp_client.Base.{ℕ, ◌≡◌, Bool, true, false, Option, Str, if◌then◌else◌, arith}
use asyncio_otlp_client.Base.Int.{ℤ, pos}

-- `parse` is `float(text)`, with `none` for its `ValueError`; `of_int` is `float(n)`.
-- `is_negative x` is `math.copysign(1.0, x) < 0`.
pub record Floats : Type 1 where
  pub F : Type 0
  pub lt : F → F → Bool
  pub le : F → F → Bool
  pub add : F → F → F
  pub sub : F → F → F
  pub mul : F → F → F
  pub div : F → F → F
  pub pow : F → ℕ → F
  pub of_int : ℤ → F
  pub parse : Str → Option F
  pub is_zero : F → Bool
  pub is_negative : F → Bool

-- What IEEE comparison guarantees of all values, NaN included.
pub record IsOrder (R : Floats) : Type 0 where
  pub irrefl : (a : R.F) → R.lt a a ≡ false
  pub asymm : (a b : R.F) → R.lt a b ≡ true → R.lt b a ≡ false

module _ (R : Floats) where
  -- `min(a, b)`
  abbrev pub min_of : R.F → R.F → R.F
  min_of a b = if R.lt b a then b else a

  -- `max(a, b)`
  abbrev pub max_of : R.F → R.F → R.F
  max_of a b = if R.lt a b then b else a

  pub max_of-not_below : IsOrder R → (a b : R.F) → R.lt (max_of a b) a ≡ false
  max_of-not_below o a b = ground (arith, o.irrefl a, o.asymm a b)

-- Zero with its sign bit clear is one value, which `float(0)` makes.
pub record HasSignedZeros (R : Floats) : Type 0 where
  pub positive_zero :
      (x : R.F) → R.is_zero x ≡ true → R.is_negative x ≡ false → x ≡ R.of_int (pos 0)
