-- ===== src/Credentials/Invariant.antt =====
-- What every step of the system keeps.
use asyncio_otlp_client.Base.{
  ℕ, ◌+◌, ◌≤◌, ◌≡◌, refl, ap, sym, ◌∙◌, Bool, true, ◌||◌, Option, none, some, List, [], ◌∷◌, Str,
  text, is_some, Exc, Result, ok, raised, stuck, is_stuck, arith, Bool-cases, ◌⊎◌, inl, inr,
}
use asyncio_otlp_client.Effects.{bind-ok}
use asyncio_otlp_client.Floats.{Floats}
use asyncio_otlp_client.Config.Defs.{Headers}
use asyncio_otlp_client.Credentials.Reply.{TokenReply, token_of}
use asyncio_otlp_client.Credentials.Ends.{token_of-ends}
use asyncio_otlp_client.Credentials.Defs.{
  Grant, Minting, TokenLibraries, authorization, usable, usable_by, ensure_session, keep_token,
  take_reply,
}
use asyncio_otlp_client.Credentials.System.{minting, returned, counted, TokenSystem}

-- The clock and the making of a session return, and leave the provider as it is.
pub record IsQuiet {W : Type 0} (R : Floats) (lib : TokenLibraries W (R.F)) : Type 0 where
  pub clock :
      (s : Minting W R.F)
      → (now : R.F) × (w : W) × (lib.monotonic s ≡ (ok now, record s { outside = w }))
  pub opens :
      (s : Minting W R.F) → (w : W) × (lib.open_session s ≡ (ok tt, record s { outside = w }))

module _ {W : Type 0} (R : Floats) (lib : TokenLibraries W (R.F)) (grant : Grant R.F)
    (quiet : IsQuiet R lib) where
  usable_by-keeps :
      (o : Option Str) (s c : Minting W R.F) (b : Bool)
      → usable_by R lib grant o s ≡ (ok b, c)
      → (c.token ≡ s.token) × (b ≡ true → is_some o ≡ true)
  unfolding usable_by
  usable_by-keeps none s c b e = ground arith
  usable_by-keeps (some t) s c b e =
      let (now, w, read) = quiet.clock s in
      let ended = sym (bind-ok lib.monotonic _ read) ∙ e in
      (sym (ap (λ (r : Result Bool × Minting W R.F). r.1.token) ended), λ _. refl)

  -- `_usable` leaves the token, and is true only of one that is there.
  pub usable-keeps :
      (s c : Minting W R.F) (b : Bool)
      → usable R lib grant s ≡ (ok b, c)
      → (c.token ≡ s.token) × (b ≡ true → is_some s.token ≡ true)
  unfolding usable
  usable-keeps s c b e = usable_by-keeps s.token s c b e

  pub ensure_session-keeps :
      (s c : Minting W R.F) → ensure_session R lib grant s ≡ (ok tt, c) → c.token ≡ s.token
  unfolding ensure_session
  ensure_session-keeps s c e =
      let (w, opened) = quiet.opens s in
      elim (Bool-cases s.has_session) [ inl there ↦ ground arith | inr absent ↦ ground arith ]

  keep_token-keeps :
      (token : Str) (ttl : R.F) (s : Minting W R.F)
      → (w : W) × (now : R.F) × (keep_token R lib grant token ttl s
          ≡ (ok tt, record s { token = some token; expires_at = R.add now ttl; outside = w }))
  unfolding keep_token
  keep_token-keeps token ttl s =
      let (now, w, read) = quiet.clock (record s { token = some token }) in
      (w, now, bind-ok lib.monotonic _ read)

  -- What `_refresh` does with a reply: it keeps the token that is granted, or raises and leaves the cache.
  pub take_reply-cases :
      (reply : TokenReply) (s : Minting W R.F)
      → ((token : Str) × (ttl : R.F) × (now : R.F) × (w : W) × (token_of R lib.formats
              grant.default_ttl reply
            ≡ ok (token, ttl))
          × (take_reply R lib grant reply s
              ≡ (ok tt, record s { token = some token; expires_at = R.add now ttl; outside = w })))
        ⊎ ((e : Exc) × (take_reply R lib grant reply s ≡ (raised e, s)))
  unfolding take_reply
  take_reply-cases reply s = go (token_of R lib.formats grant.default_ttl reply) refl
    where
      go :
          (r : Result (Str × R.F))
          → token_of R lib.formats grant.default_ttl reply ≡ r
          → ((token : Str) × (ttl : R.F) × (now : R.F) × (w : W) × (token_of R lib.formats
                  grant.default_ttl reply
                ≡ ok (token, ttl))
              × (take_reply R lib grant reply s ≡ (
                ok tt,
                record s { token = some token; expires_at = R.add now ttl; outside = w },
              )))
            ⊎ ((e : Exc) × (take_reply R lib grant reply s ≡ (raised e, s)))
      go (ok (token, ttl)) e =
          let (w, now, kept) = keep_token-keeps token ttl s in
          inl (token, ttl, now, w, e, rw e kept)
      go (raised exc) e = inr (exc, rw e refl)
      go stuck e =
          let never = token_of-ends R lib.formats grant.default_ttl reply in
          ground (arith, sym (ap is_stuck e) ∙ never)

  pub take_reply-returns :
      (reply : TokenReply) (s c : Minting W R.F)
      → take_reply R lib grant reply s ≡ (ok tt, c)
      → (token : Str) × (c.token ≡ some token)
        × ((ttl : R.F) × (token_of R lib.formats grant.default_ttl reply ≡ ok (token, ttl)))
  take_reply-returns reply s c e = elim (take_reply-cases reply s) [
    | inl (token, ttl, now, w, granted, kept) ↦ (
      token,
      ap (λ (r : Result (Unit {0}) × Minting W R.F). r.1.token) (sym e ∙ kept),
      (ttl, granted),
    )
    | inr (x, no_token) ↦ cc
  ]

  pub take_reply-raises :
      (reply : TokenReply) (s c : Minting W R.F) (x : Exc)
      → take_reply R lib grant reply s ≡ (raised x, c)
      → c.token ≡ s.token
  take_reply-raises reply s c x e = elim (take_reply-cases reply s) [
    | inl (token, ttl, now, w, granted, kept) ↦ cc
    | inr (y, no_token) ↦
        ap (λ (r : Result (Unit {0}) × Minting W R.F). r.1.token) (sym e ∙ no_token)
  ]

  -- One of the replies granted the token.
  abbrev pub Granted : Str → List TokenReply → Type 0
  Granted token [] = ⊥
  Granted token (reply ∷ replies) =
      ((ttl : R.F) × (token_of R lib.formats grant.default_ttl reply ≡ ok (token, ttl)))
      ⊎ Granted token replies

  pub record Inv (s : TokenSystem R lib grant) : Type 0 where
    pub held : (i : ℕ) → s.pc i ≡ minting → s.shared.locked ≡ true
    pub holder : s.shared.locked ≡ true → (i : ℕ) × (s.pc i ≡ minting)
    pub one : (i j : ℕ) → s.pc i ≡ minting → s.pc j ≡ minting → i ≡ j
    pub known : (token : Str) → s.shared.cache.token ≡ some token → Granted token s.shared.replies
    pub given :
        (i : ℕ) (h : Headers)
        → s.pc i ≡ returned h
        → (token : Str) × (h ≡ authorization (text "Bearer") token) × Granted token s.shared.replies
    pub few :
        s.shared.requests
        ≤ s.shared.fruitless
          + s.shared.invalidations
          + s.shared.expired
          + counted (s.shared.locked || is_some s.shared.cache.token)
