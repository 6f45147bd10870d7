-- ===== src/Base/Strings.antt =====
-- The `str` methods that the package calls.
use Prim.Native.Nat.{ℕ, ◌+◌}
use mathlib.Core.Path.{◌≡◌, refl}
use mathlib.Core.Bool.{Bool, true, false, ◌&&◌, ◌||◌}
use mathlib.Core.List.{List, [], ◌∷◌, ◌++◌, map}
use native.Mathlib.Omega.{arith}
use package.asyncio_otlp_client.Base.Tests.{leb, ◌==◌, if◌then◌else◌}
use package.asyncio_otlp_client.Base.Lists.{All}
use package.asyncio_otlp_client.Base.Text.{Str}

-- `str.isspace` of one character
unfoldable pub is_space : ℕ → Bool
is_space c =
    (leb 9 c && leb c 13)
    || (leb 28 c && leb c 32)
    || c == 0x85
    || c == 0xa0
    || c == 0x1680
    || (leb 0x2000 c && leb c 0x200a)
    || c == 0x2028
    || c == 0x2029
    || c == 0x202f
    || c == 0x205f
    || c == 0x3000

-- the text without the characters at its front, or its end, that pass a test
unfoldable pub drop_while : (ℕ → Bool) → Str → Str
drop_while p [] = []
drop_while p (c ∷ s) = if p c then drop_while p s else c ∷ s

-- A text of which only characters that pass the test are left is empty.
abbrev pub cons_end : (ℕ → Bool) → ℕ → Str → Str
cons_end p c [] = if p c then [] else c ∷ []
cons_end p c (d ∷ s) = c ∷ d ∷ s

unfoldable pub drop_end_while : (ℕ → Bool) → Str → Str
drop_end_while p [] = []
drop_end_while p (c ∷ s) = cons_end p c (drop_end_while p s)

-- `s.strip()`
unfoldable pub strip : Str → Str
unfolding drop_while drop_end_while is_space
strip s = drop_end_while is_space (drop_while is_space s)

-- `s.rstrip("/")`
unfoldable pub rstrip_slash : Str → Str
unfolding drop_end_while
rstrip_slash s = drop_end_while (λ c. c == b'/') s

-- `s.lower()`, which the package only compares with ASCII words: no other character has a lower case
-- among their letters.
unfoldable pub lower_char : ℕ → ℕ
lower_char c = if leb b'A' c && leb c b'Z' then c + 32 else c

unfoldable pub lower : Str → Str
unfolding lower_char
lower s = map lower_char s

-- `s.split(sep)` for a separator of one character
abbrev pub cons_first : ℕ → List Str → List Str
cons_first c [] = (c ∷ []) ∷ []
cons_first c (s ∷ ss) = (c ∷ s) ∷ ss

unfoldable pub split : ℕ → Str → List Str
split sep [] = [] ∷ []
split sep (c ∷ s) = if c == sep then [] ∷ split sep s else cons_first c (split sep s)

-- `s.partition(sep)`: what stands before the separator, whether it is there, and what follows it
abbrev pub cons_before : ℕ → Str × Bool × Str → Str × Bool × Str
cons_before c (before, found, after) = (c ∷ before, found, after)

unfoldable pub partition : ℕ → Str → Str × Bool × Str
partition sep [] = ([], false, [])
partition sep (c ∷ s) = if c == sep then ([], true, s) else cons_before c (partition sep s)

-- The character is not in the text.
abbrev pub Without : ℕ → Str → Type 0
Without c s = All (λ d. (d == c) ≡ false) s

pub split-append :
    (sep : ℕ) (s rest : Str) → Without sep s → split sep (s ++ (sep ∷ rest)) ≡ s ∷ split sep rest
unfolding split
split-append sep [] rest h = ground arith
split-append sep (c ∷ s) rest h = ground (arith, split-append sep s rest h.1)

pub split_single : (sep : ℕ) (s : Str) → Without sep s → split sep s ≡ s ∷ []
unfolding split
split_single sep [] h = refl
split_single sep (c ∷ s) h = ground (arith, split_single sep s h.1)

pub partition-append :
    (sep : ℕ) (s rest : Str) → Without sep s → partition sep (s ++ (sep ∷ rest)) ≡ (s, true, rest)
unfolding partition
partition-append sep [] rest h = ground arith
partition-append sep (c ∷ s) rest h = ground (arith, partition-append sep s rest h.1)

-- Characters at the end that pass the test do not change the result.
pub drop_end_while-append :
    (p : ℕ → Bool) (s t : Str)
    → All (λ c. p c ≡ true) t
    → drop_end_while p (s ++ t) ≡ drop_end_while p s
unfolding drop_end_while
drop_end_while-append p [] [] h = refl
drop_end_while-append p [] (c ∷ t) h = ground (arith, drop_end_while-append p [] t h.1)
drop_end_while-append p (c ∷ s) t h = ground (arith, drop_end_while-append p s t h)
