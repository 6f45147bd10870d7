-- ===== src/Credentials/Quiet.antt =====
-- With a quiet clock and session maker, what `headers` does between its awaits returns or raises.
use asyncio_otlp_client.Base.{
  ◌≡◌, refl, ap, ◌∙◌, Bool, true, false, Option, none, some, Str, Exc, ok, raised, if◌then◌else◌,
  Bool-cases, ◌⊎◌, inl, inr,
}
use asyncio_otlp_client.Effects.{◌>>◌, bind-ok}
use asyncio_otlp_client.Floats.{Floats}
use asyncio_otlp_client.Credentials.Reply.{TokenReply}
use asyncio_otlp_client.Credentials.Defs.{
  Grant, Minting, TokenLibraries, usable, usable_by, ensure_session, take_reply,
}
use asyncio_otlp_client.Credentials.Invariant.{IsQuiet, take_reply-cases}

module _ {W : Type 0} (R : Floats) (lib : TokenLibraries W (R.F)) (grant : Grant R.F)
    (quiet : IsQuiet R lib) where
  -- `_usable` reads the clock at most.
  usable_by-ends :
      (o : Option Str) (s : Minting W R.F)
      → (b : Bool) × (c : Minting W R.F) × (usable_by R lib grant o s ≡ (ok b, c))
  unfolding usable_by
  usable_by-ends none s = (false, s, refl)
  usable_by-ends (some token) s =
      let (now, w, read) = quiet.clock s in (_, _, bind-ok lib.monotonic _ read)

  -- `_usable` and `_ensure_session` return.
  pub usable-ends :
      (s : Minting W R.F) → (b : Bool) × (c : Minting W R.F) × (usable R lib grant s ≡ (ok b, c))
  unfolding usable
  usable-ends s = usable_by-ends s.token s

  pub ensure_session-ends :
      (s : Minting W R.F) → (c : Minting W R.F) × (ensure_session R lib grant s ≡ (ok tt, c))
  unfolding ensure_session
  ensure_session-ends s =
      let (w, opened) = quiet.opens s in
      elim (Bool-cases s.has_session) [
        | inl there ↦ (s, rw there refl)
        | inr absent ↦ (
          record s { outside = w; has_session = true; owns_session = true },
          ap
                (λ b.
                  if b
                  then (ok tt, s)
                  else (lib.open_session >> λ t.
                        (ok tt, record t { has_session = true; owns_session = true }))
                      s)
                absent
              ∙ bind-ok lib.open_session _ opened,
        )
      ]

  pub take_reply-ends :
      (reply : TokenReply) (s : Minting W R.F)
      → ((c : Minting W R.F) × (take_reply R lib grant reply s ≡ (ok tt, c)))
        ⊎ ((e : Exc) × (take_reply R lib grant reply s ≡ (raised e, s)))
  take_reply-ends reply s = elim (take_reply-cases R lib grant quiet reply s) [
    | inl (token, ttl, now, w, granted, kept) ↦ inl (_, kept)
    | inr no_token ↦ inr no_token
  ]
