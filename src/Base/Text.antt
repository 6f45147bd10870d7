-- ===== src/Base/Text.antt =====
-- Python's `str` as a list of code points, and an `int` in decimal.
use Prim.Native.Char.{code}
use Prim.Native.Nat.{ℕ, zero, suc, ◌+◌, ◌/◌, ◌%◌}
use Prim.Native.String.{String}
use mathlib.Core.Path.{◌≡◌, refl}
use mathlib.Core.Logic.{◌↔◌}
use mathlib.Core.Bool.{Bool, true, false, ◌&&◌}
use mathlib.Core.List.{List, [], ◌∷◌}
use native.Mathlib.Omega.{arith}
use package.asyncio_otlp_client.Base.Tests.{ltb, ◌==◌, if◌then◌else◌}

abbrev pub Str : Type 0
Str = List ℕ

-- The code points of a literal. It stays shut, so that a message is not spelled out in a goal.
unfoldable pub text : String → Str
text String.[] = []
text (String.◌∷◌ c s) = code c ∷ text s

unfoldable pub str_eq : Str → Str → Bool
str_eq [] [] = true
str_eq [] (d ∷ t) = false
str_eq (c ∷ s) [] = false
str_eq (c ∷ s) (d ∷ t) = c == d && str_eq s t

pub str_eq_iff : (s t : Str) → (str_eq s t ≡ true) ↔ (s ≡ t)
unfolding str_eq
str_eq_iff [] [] = ground arith
str_eq_iff [] (d ∷ t) = ground arith
str_eq_iff (c ∷ s) [] = ground arith
str_eq_iff (c ∷ s) (d ∷ t) = ground (arith, str_eq_iff s t)

-- The decimal digits of `n`, in front of `out`; every round divides by ten, so fuel `n` suffices.
unfoldable pub digits_from : ℕ → ℕ → Str → Str
digits_from zero n out = (n % 10 + b'0') ∷ out
digits_from (suc fuel) n out =
    let rest = digits_from fuel (n / 10) ((n % 10 + b'0') ∷ out) in
    if ltb n 10 then (n + b'0') ∷ out else rest

-- `str(n)` of a non-negative int
unfoldable pub decimal : ℕ → Str
unfolding digits_from
decimal n = digits_from n n []

decimal-4317 : decimal 4317 ≡ text "4317"
unfolding decimal text
decimal-4317 = refl
