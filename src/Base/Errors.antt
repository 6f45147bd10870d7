-- ===== src/Base/Errors.antt =====
-- Exceptions as values. `stuck` is no Python value: a loop of the model ran out of fuel.
use mathlib.Core.Path.{◌≡◌, refl}
use mathlib.Core.Bool.{Bool, true, false}
use mathlib.Core.List.{List, [], ◌∷◌, map}
use package.asyncio_otlp_client.Base.Text.{Str}

-- The exceptions that the package raises or lets through, with their `str()`.
-- `cancelled` is `asyncio.CancelledError`, the one that `except Exception` does not catch.
pub data Exc : Type 0 where
  config_error : Str → Exc
  transport_error : Str → Exc
  permanent_error : Str → Exc
  type_error : Str → Exc
  value_error : Str → Exc
  not_implemented : Str → Exc
  key_error : Exc
  other_error : Str → Exc
  cancelled : Exc

pub data Result {ℓ} (A : Type ℓ) : Type ℓ where
  ok : A → Result A
  raised : Exc → Result A
  stuck : Result A

infixl 5 ◌>>=◌ ◌>>◌
abbrev pub ◌>>=◌ {ℓ κ} : {A : Type ℓ} {B : Type κ} → Result A → (A → Result B) → Result B
ok a >>= f = f a
raised e >>= f = raised e
stuck >>= f = stuck

abbrev pub ◌>>◌ {ℓ κ} : {A : Type ℓ} {B : Type κ} → Result A → Result B → Result B
m >> k = m >>= λ _. k

-- A successful bind, taken apart.
pub >>=-eq-ok {ℓ κ} :
    {A : Type ℓ} {B : Type κ} (r : Result A) (next : A → Result B) {y : B}
    → (r >>= next) ≡ ok y
    → (x : A) × (r ≡ ok x) × (next x ≡ ok y)
>>=-eq-ok (ok x) next e = (x, refl, e)
>>=-eq-ok (raised exc) next e = cc
>>=-eq-ok stuck next e = cc

-- the model has no value for the result
abbrev pub is_stuck {ℓ} : {A : Type ℓ} → Result A → Bool
is_stuck stuck = true
is_stuck _ = false

-- What holds of the value, if there is one.
abbrev pub Returns {ℓ κ} : {A : Type ℓ} → (A → Type κ) → Result A → Type κ
Returns P (ok a) = P a
Returns P (raised e) = Unit
Returns P stuck = Unit

pub Returns-bind {ℓ κ ι} :
    {A : Type ℓ} {B : Type κ} (P : B → Type ι) (m : Result A) (f : A → Result B)
    → ((a : A) → m ≡ ok a → Returns P (f a))
    → Returns P (m >>= f)
Returns-bind P (ok a) f h = h a refl
Returns-bind P (raised e) f h = tt
Returns-bind P stuck f h = tt

pub Returns-ok {ℓ κ} :
    {A : Type ℓ} (P : A → Type κ) (r : Result A) (a : A) → r ≡ ok a → Returns P r → P a
Returns-ok P r a e h = rw e at h

-- `[f(x) for x in xs]`, where `f` may raise
unfoldable pub traverse {ℓ κ} :
    {A : Type ℓ} {B : Type κ} → (A → Result B) → List A → Result (List B)
traverse f [] = ok []
traverse f (x ∷ xs) = f x >>= λ y. traverse f xs >>= λ ys. ok (y ∷ ys)

-- Both computations give results that are related, or both raise a `TypeError`.
pub data Agree {A B : Type 0} (Related : A → B → Type 0) (r : Result A) (s : Result B)
    : Type 0 where
  both_return : (a : A) (b : B) → r ≡ ok a → s ≡ ok b → Related a b → Agree Related r s
  both_refuse :
      (t u : Str) → r ≡ raised (type_error t) → s ≡ raised (type_error u) → Agree Related r s

module _ {A B : Type 0} {R : A → B → Type 0} where
  pub Agree-ok : {a : A} {b : B} → R a b → Agree R (ok a) (ok b)
  Agree-ok r = both_return _ _ refl refl r

  pub Agree-bind :
      {C D : Type 0} {S : C → D → Type 0} {r : Result A} {s : Result B} {f : A → Result C}
      {g : B → Result D}
      → Agree R r s
      → ((a : A) (b : B) → R a b → Agree S (f a) (g b))
      → Agree S (r >>= f) (s >>= g)
  Agree-bind (both_return a b e h related) next = rw (e, h) (next a b related)
  Agree-bind (both_refuse t u e h) next = rw (e, h) (both_refuse t u refl refl)

  pub Agree-map :
      {C : Type 0} {S : C → B → Type 0} {r : Result A} {s : Result B} (f : A → C)
      → Agree R r s
      → ((a : A) (b : B) → R a b → S (f a) b)
      → Agree S (r >>= λ a. ok (f a)) s
  Agree-map f (both_return a b e h related) next =
      rw (e, h) (both_return _ _ refl refl (next a b related))
  Agree-map f (both_refuse t u e h) next = rw (e, h) (both_refuse t u refl refl)

  -- Two computations that one side runs in the other order.
  pub Agree-swap :
      {C D V W : Type 0} {S : C → D → Type 0} {T : V → W → Type 0} {r : Result A} {s : Result B}
      {r' : Result C} {s' : Result D} (f : A → C → V) (g : B → D → W)
      → Agree R r s
      → Agree S r' s'
      → ((a : A) (b : B) (c : C) (d : D) → R a b → S c d → T (f a c) (g b d))
      → Agree T (r >>= λ a. r' >>= λ c. ok (f a c)) (s' >>= λ d. s >>= λ b. ok (g b d))
  Agree-swap f g (both_return a b e h x) (both_return c d e' h' y) next =
      rw (e, h, e', h') (both_return _ _ refl refl (next a b c d x y))
  Agree-swap f g (both_return a b e h x) (both_refuse t u e' h') next =
      rw (e, e', h') (both_refuse t u refl refl)
  Agree-swap f g (both_refuse t u e h) (both_return c d e' h' y) next =
      rw (e, h', h) (both_refuse t u refl refl)
  Agree-swap f g (both_refuse t u e h) (both_refuse t' u' e' h') next =
      rw (e, h') (both_refuse t u' refl refl)

pub Agree-traverse :
    {A B M : Type 0} {read : B → M} {f : A → Result B} {g : A → Result M}
    → ((x : A) → Agree (λ y m. read y ≡ m) (f x) (g x))
    → (xs : List A) → Agree (λ ys ms. map read ys ≡ ms) (traverse f xs) (traverse g xs)
unfolding traverse
Agree-traverse h [] = Agree-ok refl
Agree-traverse h (x ∷ xs) =
    Agree-bind (h x)
      (λ y m e. Agree-bind (Agree-traverse h xs) (λ ys ms es. Agree-ok (λ i. e i ∷ es i)))
