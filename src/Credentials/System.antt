-- ===== src/Credentials/System.antt =====
-- One OAuth2ClientCredentials of src/otlp_client/credentials.py that tasks share. A step is what one task
-- does of `headers` between two awaits, made of the functions of Credentials/Defs.
use asyncio_otlp_client.Base.{
  ℕ, ◌+◌, ◌≡◌, Bool, true, false, none, List, [], ◌∷◌, text, ◌==◌, is_some, Exc, ok, raised,
  if◌then◌else◌, or_default,
}
use asyncio_otlp_client.Base.Int.{pos}
use asyncio_otlp_client.Floats.{Floats}
use asyncio_otlp_client.Config.Defs.{Headers}
use asyncio_otlp_client.Credentials.Reply.{TokenReply}
use asyncio_otlp_client.Credentials.Defs.{
  Grant, Minting, TokenLibraries, authorization, usable, ensure_session, take_reply, drop_token,
}

-- Where a task stands: no call, waiting for the lock, waiting for the reply with the lock held, or at
-- the end of a call.
pub data Pc : Type 0 where
  idle waiting minting : Pc
  returned : Headers → Pc
  failed : Exc → Pc

-- The task can make a call.
abbrev pub can_call : Pc → Bool
can_call waiting = false
can_call minting = false
can_call _ = true

-- What the tasks share: the state of the provider, whether its lock is held, and the replies so far. The
-- counts are of requests, of requests that ended without a token, of calls of `invalidate`, and of
-- requests that were made because a token was found too near its expiry.
pub record Shared (W F : Type 0) : Type 0 where
  pub cache : Minting W F
  pub locked : Bool
  pub replies : List TokenReply
  pub requests : ℕ
  pub fruitless : ℕ
  pub invalidations : ℕ
  pub expired : ℕ

abbrev pub counted : Bool → ℕ
counted true = 1
counted false = 0

-- `{"authorization": f"Bearer {self._token}"}`
abbrev pub bearer : {W F : Type 0} → Minting W F → Headers
bearer c = authorization (text "Bearer") (or_default (text "None") c.token)

module _ {W : Type 0} (R : Floats) (lib : TokenLibraries W (R.F)) (grant : Grant R.F) where
  -- A step of a task from `s` and `p` to `t` and `q`.
  pub data Move (s : Shared W R.F) (p : Pc) (t : Shared W R.F) (q : Pc) : Type 0 where
    serves :
        (c : Minting W R.F)
        → can_call p ≡ true
        → usable R lib grant s.cache ≡ (ok true, c)
        → t ≡ record s { cache = c }
        → q ≡ returned (bearer c)
        → Move s p t q
    waits :
        (c : Minting W R.F)
        → can_call p ≡ true
        → usable R lib grant s.cache ≡ (ok false, c)
        → t ≡ record s { cache = c }
        → q ≡ waiting
        → Move s p t q
    -- under the lock: another task has minted
    finds :
        (c : Minting W R.F)
        → p ≡ waiting
        → s.locked ≡ false
        → usable R lib grant s.cache ≡ (ok true, c)
        → t ≡ record s { cache = c }
        → q ≡ returned (bearer c)
        → Move s p t q
    asks :
        (c d : Minting W R.F)
        → p ≡ waiting
        → s.locked ≡ false
        → usable R lib grant s.cache ≡ (ok false, c)
        → ensure_session R lib grant c ≡ (ok tt, d)
        → t ≡ record s {
          cache = d;
          locked = true;
          requests = s.requests + 1;
          expired = s.expired + counted (is_some s.cache.token);
        }
        → q ≡ minting
        → Move s p t q
    mints :
        (reply : TokenReply) (c : Minting W R.F)
        → p ≡ minting
        → take_reply R lib grant reply s.cache ≡ (ok tt, c)
        → t ≡ record s { cache = c; locked = false; replies = reply ∷ s.replies }
        → q ≡ returned (bearer c)
        → Move s p t q
    gets_none :
        (reply : TokenReply) (e : Exc) (c : Minting W R.F)
        → p ≡ minting
        → take_reply R lib grant reply s.cache ≡ (raised e, c)
        → t ≡ record s {
          cache = c;
          locked = false;
          replies = reply ∷ s.replies;
          fruitless = s.fruitless + 1;
        }
        → q ≡ failed e
        → Move s p t q
    -- a task is cancelled, or its request raises something else
    stops_waiting : (e : Exc) → p ≡ waiting → t ≡ s → q ≡ failed e → Move s p t q
    stops_minting :
        (e : Exc)
        → p ≡ minting
        → t ≡ record s { locked = false; fruitless = s.fruitless + 1 }
        → q ≡ failed e
        → Move s p t q

  pub record TokenSystem : Type 0 where
    pub shared : Shared W R.F
    pub pc : ℕ → Pc

  abbrev pub update : (ℕ → Pc) → ℕ → Pc → ℕ → Pc
  update pc i q j = if i == j then q else pc j

  -- A task runs, a client calls `invalidate`, or the world outside changes, as its clock does.
  pub data TokenStep (s t : TokenSystem) : Type 0 where
    runs :
        (i : ℕ) (u : Shared W R.F) (q : Pc)
        → Move (s.shared) (s.pc i) u q
        → t ≡ record { shared = u; pc = update s.pc i q }
        → TokenStep s t
    invalidates :
        t ≡ record s {
          shared = record (s.shared) {
            cache = (drop_token R lib grant s.shared.cache).1;
            invalidations = s.shared.invalidations + 1;
          };
        }
        → TokenStep s t
    passes :
        (w : W)
        → t ≡ record s {
          shared = record (s.shared) { cache = record (s.shared.cache) { outside = w } };
        }
        → TokenStep s t

  pub data Reach (s : TokenSystem) : TokenSystem → Type 0 where
    here : Reach s s
    then_ : {t u : TokenSystem} → Reach s t → TokenStep t u → Reach s u

  pub Reach-trans : {s t u : TokenSystem} → Reach s t → Reach t u → Reach s u
  Reach-trans r here = r
  Reach-trans r (then_ r' st) = then_ (Reach-trans r r') st

  -- a provider as its constructor makes it, and no call
  abbrev pub started : Bool → W → TokenSystem
  started has_session outside = record {
    shared = record {
      cache = record {
        token = none;
        expires_at = R.of_int (pos 0);
        has_session = has_session;
        owns_session = false;
        outside = outside;
      };
      locked = false;
      replies = [];
      requests = 0;
      fruitless = 0;
      invalidations = 0;
      expired = 0;
    };
    pc = λ i. idle;
  }
