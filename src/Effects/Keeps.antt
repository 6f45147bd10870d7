-- ===== src/Effects/Keeps.antt =====
-- What an effect keeps of the world, however it ends.
use asyncio_otlp_client.Base.{Bool, true, false, if◌then◌else◌, Exc, Result, ok, raised, stuck}
use asyncio_otlp_client.Effects.{Eff, continue_with, ◌>>=◌, catch_with, try_}

module _ {W : Type 0} (P : W → Type 0) where
  abbrev pub Keeps : {A : Type 0} → Eff W A → Type 0
  Keeps m = (w : W) → P w → P (m w).1

  -- From a world that the first effect has left.
  pub bind_at :
      {A B : Type 0} (m : Eff W A) (f : A → Eff W B) (w : W)
      → P (m w).1
      → ((a : A) → Keeps (f a))
      → P ((m >>= f) w).1
  bind_at {A} {B} m f w h k = go (m w).0 (m w).1 h
    where
      go : (r : Result A) (w' : W) → P w' → P (continue_with r f w').1
      go (ok a) w' p' = k a w' p'
      go (raised e) w' p' = p'
      go stuck w' p' = p'

  pub Keeps-bind :
      {A B : Type 0} (m : Eff W A) (f : A → Eff W B)
      → Keeps m
      → ((a : A) → Keeps (f a))
      → Keeps (m >>= f)
  Keeps-bind m f h k w p = bind_at m f w (h w p) k

  pub Keeps-try :
      {A B : Type 0} (m : Eff W A) (f : A → Eff W B) (handler : Exc → Eff W B)
      → Keeps m
      → ((a : A) → Keeps (f a))
      → ((e : Exc) → Keeps (handler e))
      → Keeps (try_ m f handler)
  Keeps-try {A} {B} m f handler h k l w p = go (m w).0 (m w).1 (h w p)
    where
      go : (r : Result A) (w' : W) → P w' → P (catch_with r f handler w').1
      go (ok a) w' p' = k a w' p'
      go (raised e) w' p' = l e w' p'
      go stuck w' p' = p'

-- A choice between two effects keeps what both keep.
pub Keeps-if :
    {W A : Type 0} (P : W → Type 0) (b : Bool) (m n : Eff W A)
    → Keeps P m
    → Keeps P n
    → Keeps P (if b then m else n)
Keeps-if P true m n h k = h
Keeps-if P false m n h k = k
