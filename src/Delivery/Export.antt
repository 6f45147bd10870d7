-- ===== src/Delivery/Export.antt =====
-- An export of a client over HTTP to a collector that takes every request.
use asyncio_otlp_client.Base.{ℕ, ◌≡◌, true, List, [], ◌∷◌, ok}
use asyncio_otlp_client.Floats.{Floats}
use asyncio_otlp_client.Retry.Defs.{Hooks}
use asyncio_otlp_client.Model.Common.{Bytes}
use asyncio_otlp_client.Client.Seams.{Encoder}
use asyncio_otlp_client.Http.Defs.{Libraries, Request, answered}
use asyncio_otlp_client.Http.Replies.{is_taken}

-- The world has the requests that the collector took, the newest first: every post is answered with a
-- status from 200 to 299 and an empty body, and reading the clock leaves them.
pub record Takes {W F : Type 0} (L : Libraries W F) (hooks : Hooks W F) : Type 0 where
  pub inbox : W → List (Request F)
  pub takes :
      (q : Request F) (w : W)
      → (status : ℕ) × (header : Bytes) × (w' : W) × (is_taken (answered status [] header) ≡ true)
        × (L.post q w ≡ (ok (answered status [] header), w'))
        × (inbox w' ≡ q ∷ inbox w)
  pub clock :
      (w : W) → (now : F) × (w' : W) × (hooks.monotonic w ≡ (ok now, w')) × (inbox w' ≡ inbox w)
