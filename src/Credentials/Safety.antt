-- ===== src/Credentials/Safety.antt =====
-- What holds in every state that tasks with one provider reach.
use asyncio_otlp_client.Base.{
  ℕ, ◌+◌, ◌≤◌, ◌≡◌, sym, Bool, Str, text, ◌==◌, arith, Bool-cases, inl, inr, subst,
}
use asyncio_otlp_client.Floats.{Floats}
use asyncio_otlp_client.Config.Defs.{Headers}
use asyncio_otlp_client.Credentials.Defs.{Grant, TokenLibraries, authorization, drop_token}
use asyncio_otlp_client.Credentials.System.{
  Pc, minting, returned, Shared, Move, TokenSystem, update, TokenStep, runs, invalidates, passes,
  Reach, here, then_, started,
}
use asyncio_otlp_client.Credentials.Invariant.{IsQuiet, Granted, Inv}
use asyncio_otlp_client.Credentials.Moves.{Move-held, Move-holder, Move-one, Move-IsFew}
use asyncio_otlp_client.Credentials.Grants.{Move-known, Move-grows, Move-Given, Given}

module _ {W : Type 0} (R : Floats) (lib : TokenLibraries W (R.F)) (grant : Grant R.F)
    (quiet : IsQuiet R lib) where
  step-Given :
      (s : TokenSystem R lib grant) (inv : Inv R lib grant quiet s) (i : ℕ) (u : Shared W R.F)
      (q : Pc)
      → Move R lib grant s.shared (s.pc i) u q
      → (j : ℕ) (h : Headers) → update R lib grant s.pc i q j ≡ returned h
      → Given R lib grant quiet s inv i h u.replies
  step-Given s inv i u q mv j h e = elim (Bool-cases (i == j)) [
    | inl mover ↦ Move-Given R lib grant quiet s inv i u q h mv (ground arith)
    | inr other ↦
        let (token, written, granted) = inv.given j h (ground arith) in
        (token, written, Move-grows R lib grant quiet s inv i u q mv token granted)
  ]

  Move-Inv :
      (s : TokenSystem R lib grant) (i : ℕ) (u : Shared W R.F) (q : Pc)
      → Inv R lib grant quiet s
      → Move R lib grant s.shared (s.pc i) u q
      → Inv R lib grant quiet (record { shared = u; pc = update R lib grant s.pc i q })
  Move-Inv s i u q inv mv = record {
    held = Move-held R lib grant quiet s inv i u q mv;
    holder = Move-holder R lib grant quiet s inv i u q mv;
    one = Move-one R lib grant quiet s inv i u q mv;
    known = Move-known R lib grant quiet s inv i u q mv;
    given = step-Given s inv i u q mv;
    few = Move-IsFew R lib grant quiet s inv i u q mv;
  }

  invalidated-Inv :
      (s : TokenSystem R lib grant)
      → Inv R lib grant quiet s
      → Inv R lib grant quiet (record s {
        shared = record (s.shared) {
          cache = (drop_token R lib grant s.shared.cache).1;
          invalidations = s.shared.invalidations + 1;
        };
      })
  unfolding drop_token
  invalidated-Inv s inv = record {
    held = inv.held;
    holder = inv.holder;
    one = inv.one;
    known = λ t e. cc;
    given = inv.given;
    few = ground (arith, inv.few);
  }

  passed-Inv :
      (s : TokenSystem R lib grant) (w : W)
      → Inv R lib grant quiet s
      → Inv R lib grant quiet (record s {
        shared = record (s.shared) { cache = record (s.shared.cache) { outside = w } };
      })
  passed-Inv s w inv = record {
    held = inv.held;
    holder = inv.holder;
    one = inv.one;
    known = inv.known;
    given = inv.given;
    few = inv.few;
  }

  -- Every step of the system keeps the invariant.
  TokenStep-Inv :
      (s t : TokenSystem R lib grant)
      → Inv R lib grant quiet s
      → TokenStep R lib grant s t
      → Inv R lib grant quiet t
  TokenStep-Inv s t inv (runs i u q mv e) =
      subst (Inv R lib grant quiet) (sym e) (Move-Inv s i u q inv mv)
  TokenStep-Inv s t inv (invalidates e) =
      subst (Inv R lib grant quiet) (sym e) (invalidated-Inv s inv)
  TokenStep-Inv s t inv (passes w e) = subst (Inv R lib grant quiet) (sym e) (passed-Inv s w inv)

  started-Inv :
      (has_session : Bool) (w : W) → Inv R lib grant quiet (started R lib grant has_session w)
  started-Inv has_session w = record {
    held = λ i e. cc;
    holder = λ l. cc;
    one = λ i j e f. cc;
    known = λ t e. cc;
    given = λ i h e. cc;
    few = omega arith;
  }

  pub Reach-keeps :
      {s t : TokenSystem R lib grant}
      → Inv R lib grant quiet s
      → Reach R lib grant s t
      → Inv R lib grant quiet t
  Reach-keeps inv here = inv
  Reach-keeps {s} inv (then_ {t = t} r st) = TokenStep-Inv t _ (Reach-keeps inv r) st

  pub Reach-Inv :
      (has_session : Bool) (w : W) {s : TokenSystem R lib grant}
      → Reach R lib grant (started R lib grant has_session w) s
      → Inv R lib grant quiet s
  Reach-Inv has_session w r = Reach-keeps (started-Inv has_session w) r

  -- Whatever the tasks do, in any order, with clients calling `invalidate` and time passing, no two
  -- requests to the token endpoint are in flight together; where the clock and the making of a session
  -- return and leave the provider as it is.
  pub minting_unique :
      (has_session : Bool) (w : W) {s : TokenSystem R lib grant}
      → Reach R lib grant (started R lib grant has_session w) s
      → (i j : ℕ) → s.pc i ≡ minting
      → s.pc j ≡ minting
      → i ≡ j
  minting_unique has_session w r = (Reach-Inv has_session w r).one

  -- A call of `headers` that returns, among any others and calls of `invalidate`, returns a token that a
  -- reply of the endpoint granted before; so never
  -- the header of a missing token. The clock and the making of a session
  -- return and leave the provider as it is.
  pub returned-Granted :
      (has_session : Bool) (w : W) {s : TokenSystem R lib grant}
      → Reach R lib grant (started R lib grant has_session w) s
      → (i : ℕ) (h : Headers) → s.pc i ≡ returned h
      → (token : Str) × (h ≡ authorization (text "Bearer") token)
        × Granted R lib grant quiet token s.shared.replies
  returned-Granted has_session w r = (Reach-Inv has_session w r).given

  -- However many calls are made, the endpoint is asked at most once more than requests ended without a
  -- token, tokens were invalidated, and tokens were found too near their expiry: a burst of calls is one
  -- request. The clock and the making of a session return and leave the provider as it is.
  pub requests-bound :
      (has_session : Bool) (w : W) {s : TokenSystem R lib grant}
      → Reach R lib grant (started R lib grant has_session w) s
      → s.shared.requests ≤ s.shared.fruitless + s.shared.invalidations + s.shared.expired + 1
  requests-bound has_session w r = ground (arith, (Reach-Inv has_session w r).few)
