-- ===== src/Credentials/Runs.antt =====
-- `headers` and the system of Credentials/System: a call of the code function is a path of the system,
-- with the steps of other tasks at its two awaits.
use asyncio_otlp_client.Base.{
  ℕ, ◌+◌, ◌≡◌, refl, ap, sym, subst, ◌∙◌, Bool, true, false, Exc, Result, ok, raised, arith,
  Bool-cases, ◌⊎◌, inl, inr, is_some, ◌∷◌,
}
use asyncio_otlp_client.Effects.{Eff, raise, try_, ◌>>=◌, ◌>>◌, bind-ok, bind-raised}
use asyncio_otlp_client.Floats.{Floats}
use asyncio_otlp_client.Config.Defs.{Headers}
use asyncio_otlp_client.Credentials.Reply.{TokenReply}
use asyncio_otlp_client.Credentials.Defs.{
  Grant, Minting, TokenLibraries, usable, ensure_session, grant_form, auth_header, take_reply, ask,
  refresh, refresh_unless, with_lock, kept_header, minted_headers_if, minted_headers,
}
use asyncio_otlp_client.Credentials.System.{
  Pc, waiting, minting, returned, failed, can_call, Shared, counted, bearer, Move, serves, waits,
  finds, asks, mints, gets_none, stops_waiting, stops_minting, TokenSystem, update, runs, passes,
  Reach, here, then_, Reach-trans,
}
use asyncio_otlp_client.Credentials.Invariant.{IsQuiet, Inv}
use asyncio_otlp_client.Credentials.Quiet.{usable-ends, ensure_session-ends, take_reply-ends}
use asyncio_otlp_client.Credentials.Safety.{Reach-keeps}

module _ {W : Type 0} (R : Floats) (lib : TokenLibraries W (R.F)) (grant : Grant R.F)
    (quiet : IsQuiet R lib) where
  -- the call finds a usable token at once, or is cancelled while it waits for the lock
  abbrev pub NoLock : Minting W R.F → Type 0
  NoLock s =
      ((c : Minting W R.F) × (usable R lib grant s ≡ (ok true, c)))
      ⊎ ((c d : Minting W R.F) × (e : Exc) × (usable R lib grant s ≡ (ok false, c))
          × (lib.acquire c ≡ (raised e, d)))

  module _ (i : ℕ) where
    -- The call ended, and the task is where the system has it.
    abbrev pub Ended : Result Headers × Minting W R.F → TokenSystem R lib grant → Type 0
    Ended r t =
        ((h : Headers) × (t.pc i ≡ returned h) × (r ≡ (ok h, t.shared.cache)))
        ⊎ ((e : Exc) × (t.pc i ≡ failed e) × (r ≡ (raised e, t.shared.cache)))

    abbrev moved : TokenSystem R lib grant → Shared W R.F → Pc → TokenSystem R lib grant
    moved s u q = record { shared = u; pc = update R lib grant s.pc i q }

    moved-pc : (s : TokenSystem R lib grant) (u : Shared W R.F) (q : Pc) → (moved s u q).pc i ≡ q
    moved-pc s u q = ground arith

    abbrev stepped :
        {s t : TokenSystem R lib grant} {u : Shared W R.F} {q : Pc}
        → Reach R lib grant s t
        → Move R lib grant t.shared (t.pc i) u q
        → Reach R lib grant s (moved t u q)
    stepped {u = u} {q = q} r mv = then_ r (runs i u q mv refl)

    -- What other tasks do while this one waits for the lock and for the reply; and that `release` makes
    -- the lock free, which is a part of the world, and does no more.
    pub record Awaits : Type 0 where
      pub is_free : W → Bool
      pub acquire :
          (s : TokenSystem R lib grant)
          → Inv R lib grant quiet s
          → s.pc i ≡ waiting
          → (t : TokenSystem R lib grant) × Reach R lib grant s t
            × (t.pc i ≡ waiting)
            × (((t.shared.locked ≡ false) × (lib.acquire s.shared.cache ≡ (ok tt, t.shared.cache)))
                ⊎ ((e : Exc) × (lib.acquire s.shared.cache ≡ (raised e, t.shared.cache))))
      pub post :
          (s : TokenSystem R lib grant)
          → Inv R lib grant quiet s
          → s.pc i ≡ minting
          → (t : TokenSystem R lib grant) × Reach R lib grant s t
            × (t.pc i ≡ minting)
            × (((reply : TokenReply) × (lib.post grant.token_url
                      (grant_form grant)
                      (auth_header R lib grant)
                      s.shared.cache
                    ≡ (ok reply, t.shared.cache)))
                ⊎ ((e : Exc) × (lib.post grant.token_url
                        (grant_form grant)
                        (auth_header R lib grant)
                        s.shared.cache
                      ≡ (raised e, t.shared.cache))))
      pub release :
          (s : Minting W R.F)
          → (w : W) × (lib.release s ≡ (ok tt, record s { outside = w })) × (is_free w ≡ true)

    abbrev posts : Eff (Minting W R.F) TokenReply
    posts = lib.post grant.token_url (grant_form grant) (auth_header R lib grant)

    abbrev answer : Eff (Minting W R.F) (Unit {0})
    answer = posts >>= take_reply R lib grant

    abbrev body : Eff (Minting W R.F) (Unit {0})
    body = usable R lib grant >>= refresh_unless R lib grant

    -- the end of `headers` once `body` has the lock
    abbrev locked_tail : Eff (Minting W R.F) (Unit {0}) → Eff (Minting W R.F) Headers
    locked_tail body =
        try_ body (λ u. lib.release) (λ e. lib.release >> raise e) >> kept_header R lib grant

    tail-eq :
        (body other : Eff (Minting W R.F) (Unit {0})) (s d : Minting W R.F)
        → body s ≡ other d
        → locked_tail body s ≡ locked_tail other d
    tail-eq body other s d e = rw e refl

    -- `_refresh` after its first line
    asked :
        (c d : Minting W R.F)
        → ensure_session R lib grant c ≡ (ok tt, d)
        → refresh R lib grant c ≡ answer d
    unfolding refresh ask
    asked c d opened = rw opened refl

    module _ (awaits : Awaits) where
      -- the state after `release`
      abbrev released : Minting W R.F → Minting W R.F
      released c = record c { outside = (awaits.release c).0 }

      abbrev freed : TokenSystem R lib grant → TokenSystem R lib grant
      freed t = record t { shared = record (t.shared) { cache = released t.shared.cache } }

      abbrev frees :
          {s t : TokenSystem R lib grant} → Reach R lib grant s t → Reach R lib grant s (freed t)
      frees {t = t} r = then_ r (passes (awaits.release t.shared.cache).0 refl)

      is_freed : (c : Minting W R.F) → awaits.is_free (released c).outside ≡ true
      is_freed c = (awaits.release c).2

      tail-ok :
          (body : Eff (Minting W R.F) (Unit {0})) (s c : Minting W R.F)
          → body s ≡ (ok tt, c)
          → locked_tail body s ≡ (ok (bearer c), released c)
      unfolding kept_header
      tail-ok body s c e = rw (e, (awaits.release c).1) refl

      tail-raised :
          (body : Eff (Minting W R.F) (Unit {0})) (s c : Minting W R.F) (x : Exc)
          → body s ≡ (raised x, c)
          → locked_tail body s ≡ (raised x, released c)
      tail-raised body s c x e = rw (e, (awaits.release c).1) refl

      -- The reply to a request, until the task is at rest.
      answered :
          (s : TokenSystem R lib grant)
          → Inv R lib grant quiet s
          → s.pc i ≡ minting
          → (t : TokenSystem R lib grant) × Reach R lib grant s t
            × Ended (locked_tail answer s.shared.cache) t
            × (awaits.is_free t.shared.cache.outside ≡ true)
      answered s inv p =
          let (t, r, at, end) = awaits.post s inv p in
          let before = s.shared.cache in
          let after = t.shared.cache in
          elim end [
            | inl (reply, posted) ↦ elim (take_reply-ends R lib grant quiet reply after) [
              | inl (c, kept) ↦
                  let u = record (t.shared) {
                    cache = c;
                    locked = false;
                    replies = reply ∷ t.shared.replies;
                  } in
                  let minted = bind-ok posts (take_reply R lib grant) posted ∙ kept in
                  (
                    freed (moved t u (returned (bearer c))),
                    frees (stepped r (mints reply c at kept refl refl)),
                    inl (
                      bearer c,
                      moved-pc t u (returned (bearer c)),
                      tail-ok answer before c minted,
                    ),
                    is_freed c,
                  )
              | inr (x, no_token) ↦
                  let u = record (t.shared) {
                    locked = false;
                    replies = reply ∷ t.shared.replies;
                    fruitless = t.shared.fruitless + 1;
                  } in
                  let refused = bind-ok posts (take_reply R lib grant) posted ∙ no_token in
                  (
                    freed (moved t u (failed x)),
                    frees (stepped r (gets_none reply x after at no_token refl refl)),
                    inr (x, moved-pc t u (failed x), tail-raised answer before after x refused),
                    is_freed after,
                  )
            ]
            | inr (x, lost) ↦
                let u = record (t.shared) { locked = false; fruitless = t.shared.fruitless + 1 } in
                (
                  freed (moved t u (failed x)),
                  frees (stepped r (stops_minting x at refl refl)),
                  inr (
                    x,
                    moved-pc t u (failed x),
                    tail-raised answer before after x
                        (bind-raised posts (take_reply R lib grant) lost),
                  ),
                  is_freed after,
                )
          ]

      -- The body of `async with self._lock`.
      holding :
          (s : TokenSystem R lib grant)
          → Inv R lib grant quiet s
          → s.pc i ≡ waiting
          → s.shared.locked ≡ false
          → (t : TokenSystem R lib grant) × Reach R lib grant s t
            × Ended (locked_tail body s.shared.cache) t
            × (awaits.is_free t.shared.cache.outside ≡ true)
      unfolding refresh_unless
      holding s inv p free =
          let (b, c, looked) = usable-ends R lib grant quiet s.shared.cache in
          elim (Bool-cases b) [
            | inl found ↦
                let served = looked ∙ ap (λ b. (ok b, c)) found in
                (
                  freed (moved s (record (s.shared) { cache = c }) (returned (bearer c))),
                  frees (stepped here (finds c p free served refl refl)),
                  inl (
                    bearer c,
                    moved-pc s (record (s.shared) { cache = c }) (returned (bearer c)),
                    tail-ok body s.shared.cache c
                        (bind-ok (usable R lib grant) (refresh_unless R lib grant) served),
                  ),
                  is_freed c,
                )
            | inr missing ↦
                let expired = looked ∙ ap (λ b. (ok b, c)) missing in
                let (d, opened) = ensure_session-ends R lib grant quiet c in
                let u = record (s.shared) {
                  cache = d;
                  locked = true;
                  requests = s.shared.requests + 1;
                  expired = s.shared.expired + counted (is_some s.shared.cache.token);
                } in
                let asking = stepped here (asks c d p free expired opened refl refl) in
                let (t, r, ended, unlocked) =
                  answered (moved s u minting) (Reach-keeps R lib grant quiet inv asking)
                    (moved-pc s u minting) in
                (
                  t,
                  Reach-trans R lib grant asking r,
                  subst (λ m. Ended m t)
                      (sym (
                        tail-eq body answer s.shared.cache d (
                          bind-ok (usable R lib grant) (refresh_unless R lib grant) expired
                          ∙ asked c d opened)))
                      ended,
                  unlocked,
                )
          ]

      -- A call of `headers` ends, and what it returns or raises and what it keeps are those of a path of the
      -- system in which the task makes the call: so what holds in every state that tasks reach holds of it.
      -- The lock is free when it ends, however that is, unless the call did not get it. The call starts in a
      -- state that keeps the invariant; the clock and the making of a session return and leave the provider
      -- as it is; its two awaits end, with what other tasks did before; and `release` frees the lock.
      pub minted_headers-Reach :
          (s : TokenSystem R lib grant)
          → Inv R lib grant quiet s
          → can_call (s.pc i) ≡ true
          → (t : TokenSystem R lib grant) × Reach R lib grant s t
            × Ended (minted_headers R lib grant s.shared.cache) t
            × (NoLock s.shared.cache ⊎ (awaits.is_free t.shared.cache.outside ≡ true))
      unfolding minted_headers minted_headers_if with_lock kept_header
      minted_headers-Reach s inv p =
          let (b, c, looked) = usable-ends R lib grant quiet s.shared.cache in
          elim (Bool-cases b) [
            | inl found ↦
                let served = looked ∙ ap (λ b. (ok b, c)) found in
                (
                  moved s (record (s.shared) { cache = c }) (returned (bearer c)),
                  stepped here (serves c p served refl refl),
                  inl (
                    bearer c,
                    moved-pc s (record (s.shared) { cache = c }) (returned (bearer c)),
                    bind-ok (usable R lib grant) (minted_headers_if R lib grant) served,
                  ),
                  inl (inl (c, served)),
                )
            | inr missing ↦
                let expired = looked ∙ ap (λ b. (ok b, c)) missing in
                let queued = stepped here (waits c p expired refl refl) in
                let at = moved s (record (s.shared) { cache = c }) waiting in
                let (t, r, still, end) =
                  awaits.acquire at (Reach-keeps R lib grant quiet inv queued)
                    (moved-pc s (record (s.shared) { cache = c }) waiting) in
                let path = Reach-trans R lib grant queued r in
                elim end [
                  | inl (free, acquired) ↦
                      let (u, r', ended, unlocked) =
                        holding t (Reach-keeps R lib grant quiet inv path) still free in
                      (
                        u,
                        Reach-trans R lib grant path r',
                        subst (λ m. Ended m u)
                            (sym (
                              bind-ok (usable R lib grant) (minted_headers_if R lib grant) expired
                              ∙ rw acquired refl))
                            ended,
                        inr unlocked,
                      )
                  | inr (x, stopped) ↦ (
                    moved t (t.shared) (failed x),
                    stepped path (stops_waiting x still refl refl),
                    inr (
                      x,
                      moved-pc t (t.shared) (failed x),
                      bind-ok (usable R lib grant) (minted_headers_if R lib grant) expired
                          ∙ rw stopped refl,
                    ),
                    inl (inr (c, _, x, expired, stopped)),
                  )
                ]
          ]
