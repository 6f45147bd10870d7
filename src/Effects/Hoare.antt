-- ===== src/Effects/Hoare.antt =====
-- Postconditions of effects: `Q` after a return, `E` after a raise, and `S` if fuel runs out, which
-- is `⊥` for a total statement.
use asyncio_otlp_client.Base.{Exc, Result, ok, raised, stuck}
use asyncio_otlp_client.Effects.{Eff, continue_with, ◌>>=◌}

abbrev pub Post : Type 0 → Type 1
Post W = Exc → W → Type 0

module _ {W : Type 0} (S : Type 0) where
  abbrev pub Ensures : {A : Type 0} → (A → W → Type 0) → Post W → Result A × W → Type 0
  Ensures Q E (ok a, w) = Q a w
  Ensures Q E (raised e, w) = E e w
  Ensures Q E (stuck, w) = S

  pub Ensures-bind :
      {A B : Type 0} (Q : A → W → Type 0) (R : B → W → Type 0) (E : Post W) (m : Eff W A)
      (f : A → Eff W B) (w : W)
      → Ensures Q E (m w)
      → ((a : A) (w' : W) → Q a w' → Ensures R E (f a w'))
      → Ensures R E ((m >>= f) w)
  Ensures-bind {A} {B} Q R E m f w h k = go (m w).0 (m w).1 h
    where
      go : (r : Result A) (w' : W) → Ensures Q E (r, w') → Ensures R E (continue_with r f w')
      go (ok a) w' h' = k a w' h'
      go (raised e) w' h' = h'
      go stuck w' h' = h'

  -- A postcondition may be weakened.
  pub Ensures-weaken :
      {A : Type 0} (Q R : A → W → Type 0) (E D : Post W) (r : Result A × W)
      → ((a : A) (w : W) → Q a w → R a w)
      → ((e : Exc) (w : W) → E e w → D e w)
      → Ensures Q E r
      → Ensures R D r
  Ensures-weaken Q R E D (ok a, w) f g h = f a w h
  Ensures-weaken Q R E D (raised e, w) f g h = g e w h
  Ensures-weaken Q R E D (stuck, w) f g h = h
