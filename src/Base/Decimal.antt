-- ===== src/Base/Decimal.antt =====
-- Reading what `str` of an int wrote.
use Prim.Native.Nat.{ℕ, zero, suc, ◌+◌, ◌-◌, ◌*◌, ◌/◌, ◌%◌, ◌≤◌}
use mathlib.Core.Path.{◌≡◌, refl, sym, ap, ◌∙◌}
use mathlib.Core.Bool.{false}
use mathlib.Core.List.{[], ◌∷◌}
use native.Mathlib.Omega.{arith}
use package.asyncio_otlp_client.Base.Tests.{ltb, ◌==◌, if◌then◌else◌, Bool-cases}
use package.asyncio_otlp_client.Base.Lists.{is_empty}
use package.asyncio_otlp_client.Base.Text.{Str, digits_from, decimal}
use package.asyncio_otlp_client.Base.Int.{ℤ, pos, negsuc, str_of_int}
use mathlib.Core.Logic.{inl, inr}

unfoldable pub read_digits : ℕ → Str → ℕ
read_digits n [] = n
read_digits n (c ∷ s) = read_digits (n * 10 + (c - b'0')) s

abbrev pub negate : ℕ → ℤ
negate zero = pos 0
negate (suc n) = negsuc n

-- `int(s)` of a decimal numeral
unfoldable pub read_int_text : Str → ℤ
unfolding read_digits
read_int_text [] = pos 0
read_int_text (c ∷ s) = if c == b'-' then negate (read_digits 0 s) else pos (read_digits 0 (c ∷ s))

read_digits-digits_from :
    (fuel n : ℕ) (out : Str) → n ≤ fuel → read_digits 0 (digits_from fuel n out) ≡ read_digits n out
unfolding read_digits digits_from
read_digits-digits_from zero n out h =
    ap (λ (k : ℕ). read_digits k out) {x = 0 * 10 + (n % 10 + b'0' - b'0')} (omega arith)
read_digits-digits_from (suc fuel) n out h = elim (Bool-cases (ltb n 10)) [
  | inl small ↦
      rw small (ap (λ (k : ℕ). read_digits k out) {x = 0 * 10 + (n + b'0' - b'0')} (omega arith))
  | inr large ↦ rw large (
      read_digits-digits_from fuel (n / 10) ((n % 10 + b'0') ∷ out) (ground arith)
      ∙ ap (λ (k : ℕ). read_digits k out) {x = n / 10 * 10 + (n % 10 + b'0' - b'0')} (omega arith))
]

-- The first digit is no minus sign.
digits_from-first :
    (fuel n : ℕ) (out : Str)
    → (c : ℕ) × (s : Str) × (digits_from fuel n out ≡ c ∷ s) × ((c == b'-') ≡ false)
unfolding digits_from
digits_from-first zero n out = (n % 10 + b'0', out, refl, ground arith)
digits_from-first (suc fuel) n out = elim (Bool-cases (ltb n 10)) [
  | inl small ↦ (n + b'0', out, rw small, ground arith)
  | inr large ↦
      let (c, s, e, h) = digits_from-first fuel (n / 10) ((n % 10 + b'0') ∷ out) in
      (c, s, rw large e, h)
]

pub read_int_text-str_of_int : (n : ℤ) → read_int_text (str_of_int n) ≡ n
unfolding read_int_text str_of_int decimal
read_int_text-str_of_int (pos n) =
    let (c, s, e, h) = digits_from-first n n [] in
    rw e (rw h (ap pos (ap (read_digits 0) (sym e) ∙ read_digits-digits_from n n [] (omega arith))))
read_int_text-str_of_int (negsuc n) =
    ap negate (read_digits-digits_from (suc n) (suc n) [] (omega arith))

pub is_empty-str_of_int : (n : ℤ) → is_empty (str_of_int n) ≡ false
unfolding str_of_int decimal
is_empty-str_of_int (pos n) = let (c, s, e, h) = digits_from-first n n [] in rw e refl
is_empty-str_of_int (negsuc n) = refl
