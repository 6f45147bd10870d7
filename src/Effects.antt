-- ===== src/Effects.antt =====
-- Coroutines: code that acts on the world and may raise. What was done before a raise stays done,
-- so the world comes back beside the exception too. An `await` is such a call.
pub mod Hoare
pub mod Keeps
use asyncio_otlp_client.Base.{◌≡◌, ap, Exc, Result, ok, raised, stuck}

abbrev pub Eff : Type 0 → Type 0 → Type 0
Eff W A = W → Result A × W

module _ {W A : Type 0} where
  abbrev pub pure : A → Eff W A
  pure a w = (ok a, w)

  abbrev pub raise : Exc → Eff W A
  raise e w = (raised e, w)

  abbrev pub out_of_fuel : Eff W A
  out_of_fuel w = (stuck, w)

module _ {W A B : Type 0} where
  abbrev pub continue_with : Result A → (A → Eff W B) → Eff W B
  continue_with (ok a) f w = f a w
  continue_with (raised e) f w = (raised e, w)
  continue_with stuck f w = (stuck, w)

  infixl 5 ◌>>=◌
  abbrev pub ◌>>=◌ : Eff W A → (A → Eff W B) → Eff W B
  ◌>>=◌ m f w = continue_with (m w).0 f (m w).1

  infixl 5 ◌>>◌
  abbrev pub ◌>>◌ : Eff W A → Eff W B → Eff W B
  m >> k = m >>= λ _. k

  -- `try: m except …`, with the handler by the exception that was raised
  abbrev pub catch_with : Result A → (A → Eff W B) → (Exc → Eff W B) → Eff W B
  catch_with (ok a) f handler w = f a w
  catch_with (raised e) f handler w = handler e w
  catch_with stuck f handler w = (stuck, w)

  abbrev pub try_ : Eff W A → (A → Eff W B) → (Exc → Eff W B) → Eff W B
  try_ m f handler w = catch_with (m w).0 f handler (m w).1

module _ {W A B : Type 0} where
  -- A bind after an effect that is known to return.
  pub bind-ok :
      (m : Eff W A) (f : A → Eff W B) {a : A} {w w' : W} → m w ≡ (ok a, w') → (m >>= f) w ≡ f a w'
  bind-ok m f h = ap (λ (r : Result A × W). continue_with r.0 f r.1) h

  pub bind-raised :
      (m : Eff W A) (f : A → Eff W B) {e : Exc} {w w' : W}
      → m w ≡ (raised e, w')
      → (m >>= f) w ≡ (raised e, w')
  bind-raised m f h = ap (λ (r : Result A × W). continue_with r.0 f r.1) h

  pub try-ok :
      (m : Eff W A) (f : A → Eff W B) (handler : Exc → Eff W B) {a : A} {w w' : W}
      → m w ≡ (ok a, w')
      → try_ m f handler w ≡ f a w'
  try-ok m f handler h = ap (λ (r : Result A × W). catch_with r.0 f handler r.1) h
