-- ===== src/Base/Int.antt =====
-- Python's `int`: the integers over the native numbers; `negsuc n` is -(n + 1).
use Prim.Native.Nat.{ℕ, suc, ◌+◌, ◌-◌, ◌≤◌}
use mathlib.Core.Bool.{Bool, false}
use mathlib.Core.List.{◌∷◌}
use package.asyncio_otlp_client.Base.Tests.{leb, ◌==◌, if◌then◌else◌}
use package.asyncio_otlp_client.Base.Text.{Str, decimal}

pub data ℤ : Type 0 where
  pos : ℕ → ℤ
  negsuc : ℕ → ℤ

abbrev pub pos_part : ℤ → ℕ
pos_part (pos n) = n
pos_part (negsuc n) = 0

abbrev pub neg_part : ℤ → ℕ
neg_part (pos n) = 0
neg_part (negsuc n) = suc n

abbrev pub sub_ℕ : ℕ → ℕ → ℤ
sub_ℕ a b = if leb b a then pos (a - b) else negsuc (b - a - 1)

infixl 65 ◌-ℤ◌
infix 50 ◌≤ℤ◌
unfoldable pub ◌-ℤ◌ : ℤ → ℤ → ℤ
a -ℤ b = sub_ℕ (pos_part a + neg_part b) (neg_part a + pos_part b)

abbrev pub ◌≤ℤ◌ : ℤ → ℤ → Type 0
a ≤ℤ b = pos_part a + neg_part b ≤ pos_part b + neg_part a

-- `max(0, a)`, which is never negative
abbrev pub clamp : ℤ → ℕ
clamp a = pos_part a

-- `not a`
abbrev pub is_zero : ℤ → Bool
is_zero (pos n) = n == 0
is_zero (negsuc n) = false

-- `str(a)`
unfoldable pub str_of_int : ℤ → Str
str_of_int (pos n) = decimal n
str_of_int (negsuc n) = b'-' ∷ decimal (suc n)
