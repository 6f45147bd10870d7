-- ===== src/Credentials/Grants.antt =====
-- The tokens that a step of a task keeps or returns were granted.
use asyncio_otlp_client.Base.{
  ℕ, ◌≡◌, refl, ap, sym, subst, ◌∙◌, Option-cases, Bool, true, some, List, [], Str, text, is_some,
  ok, or_default, arith, inl, inr,
}
use asyncio_otlp_client.Floats.{Floats}
use asyncio_otlp_client.Config.Defs.{Headers}
use asyncio_otlp_client.Credentials.Reply.{TokenReply, token_of}
use asyncio_otlp_client.Credentials.Defs.{Grant, Minting, TokenLibraries, authorization, usable}
use asyncio_otlp_client.Credentials.System.{
  Pc, returned, Shared, bearer, Move, serves, waits, finds, asks, mints, gets_none, stops_waiting,
  stops_minting, TokenSystem,
}
use asyncio_otlp_client.Credentials.Invariant.{
  IsQuiet, usable-keeps, ensure_session-keeps, take_reply-returns, take_reply-raises, Granted, Inv,
}

module _ {W : Type 0} (R : Floats) (lib : TokenLibraries W (R.F)) (grant : Grant R.F)
    (quiet : IsQuiet R lib) where
  module _ (s : TokenSystem R lib grant) (inv : Inv R lib grant quiet s) (i : ℕ) where
    abbrev pub Moves : Shared W R.F → Pc → Type 0
    Moves u q = Move R lib grant s.shared (s.pc i) u q

    abbrev returned_header : Pc → Headers
    returned_header (returned h) = h
    returned_header _ = []

    -- A step that leaves the token and the replies.
    same_token :
        (u : Shared W R.F)
        → u.cache.token ≡ s.shared.cache.token
        → u.replies ≡ s.shared.replies
        → (token : Str) → u.cache.token ≡ some token
        → Granted R lib grant quiet token u.replies
    same_token u same replies token e =
        subst (Granted R lib grant quiet token) (sym replies) (inv.known token (sym same ∙ e))

    -- the token and the replies of a state that an equation gives
    abbrev token_in : {u v : Shared W R.F} → u ≡ v → u.cache.token ≡ v.cache.token
    token_in f = ap (λ (x : Shared W R.F). x.cache.token) f

    abbrev replies_in : {u v : Shared W R.F} → u ≡ v → u.replies ≡ v.replies
    replies_in f = ap (λ (x : Shared W R.F). x.replies) f

    abbrev usable_keeps :
        {c : Minting W R.F} {b : Bool}
        → usable R lib grant s.shared.cache ≡ (ok b, c)
        → c.token ≡ s.shared.cache.token
    usable_keeps {c} {b} e = (usable-keeps R lib grant quiet s.shared.cache c b e).0

    pub Move-known :
        (u : Shared W R.F) (q : Pc)
        → Moves u q
        → (token : Str) → u.cache.token ≡ some token
        → Granted R lib grant quiet token u.replies
    Move-known u q (serves c r e f g) t m =
        same_token u (token_in f ∙ usable_keeps e) (replies_in f) t m
    Move-known u q (waits c r e f g) t m =
        same_token u (token_in f ∙ usable_keeps e) (replies_in f) t m
    Move-known u q (finds c r l e f g) t m =
        same_token u (token_in f ∙ usable_keeps e) (replies_in f) t m
    Move-known u q (asks c d r l e o f g) t m =
        same_token u (token_in f ∙ ensure_session-keeps R lib grant quiet c d o ∙ usable_keeps e)
          (replies_in f) t m
    Move-known u q (mints reply c r e f g) t m =
        let (token, kept, granted) =
          take_reply-returns R lib grant quiet reply s.shared.cache c e in
        let same : token ≡ t = ground (arith, token_in f) in
        subst (Granted R lib grant quiet t) (sym (replies_in f)) (
          inl (
            subst
              (λ t. (ttl : R.F) × (token_of R lib.formats grant.default_ttl reply ≡ ok (t, ttl)))
              same granted))
    Move-known u q (gets_none reply x c r e f g) t m =
        subst (Granted R lib grant quiet t) (sym (replies_in f)) (
          inr (
            inv.known t (
              sym (take_reply-raises R lib grant quiet reply s.shared.cache c x e)
              ∙ sym (token_in f)
              ∙ m)))
    Move-known u q (stops_waiting x r f g) t m = same_token u (token_in f) (replies_in f) t m
    Move-known u q (stops_minting x r f g) t m = same_token u (token_in f) (replies_in f) t m

    -- Replies are only added.
    pub Move-grows :
        (u : Shared W R.F) (q : Pc)
        → Moves u q
        → (t : Str) → Granted R lib grant quiet t s.shared.replies
        → Granted R lib grant quiet t u.replies
    Move-grows u q (mints reply c r e f g) t h =
        subst (Granted R lib grant quiet t) (sym (replies_in f)) (inr h)
    Move-grows u q (gets_none reply x c r e f g) t h =
        subst (Granted R lib grant quiet t) (sym (replies_in f)) (inr h)
    Move-grows u q (serves c r e f g) t h =
        subst (Granted R lib grant quiet t) (sym (replies_in f)) h
    Move-grows u q (waits c r e f g) t h =
        subst (Granted R lib grant quiet t) (sym (replies_in f)) h
    Move-grows u q (finds c r l e f g) t h =
        subst (Granted R lib grant quiet t) (sym (replies_in f)) h
    Move-grows u q (asks c d r l e o f g) t h =
        subst (Granted R lib grant quiet t) (sym (replies_in f)) h
    Move-grows u q (stops_waiting x r f g) t h =
        subst (Granted R lib grant quiet t) (sym (replies_in f)) h
    Move-grows u q (stops_minting x r f g) t h =
        subst (Granted R lib grant quiet t) (sym (replies_in f)) h

    -- a header that was granted
    abbrev pub Given : Headers → List TokenReply → Type 0
    Given h replies =
        (token : Str) × (h ≡ authorization (text "Bearer") token)
        × Granted R lib grant quiet token replies

    -- The header of a cache that has a token.
    bearer-Given :
        (u : Shared W R.F) (q : Pc) (h : Headers)
        → Moves u q
        → is_some u.cache.token ≡ true
        → q ≡ returned (bearer u.cache)
        → q ≡ returned h
        → Given h u.replies
    bearer-Given u q h mv there written e = elim (Option-cases u.cache.token) [
      | inl absent ↦ ground arith
      | inr (t, present) ↦ (
        t,
        ap returned_header (sym e ∙ written)
            ∙ ap (λ o. authorization (text "Bearer") (or_default (text "None") o)) present,
        Move-known u q mv t present,
      )
    ]

    abbrev usable_there :
        {c : Minting W R.F}
        → usable R lib grant s.shared.cache ≡ (ok true, c)
        → is_some s.shared.cache.token ≡ true
    usable_there {c} e = (usable-keeps R lib grant quiet s.shared.cache c true e).1 refl

    abbrev written :
        {u v : Shared W R.F} {q : Pc} {c : Minting W R.F}
        → u ≡ v
        → v.cache ≡ c
        → q ≡ returned (bearer c)
        → q ≡ returned (bearer u.cache)
    written f same g =
        g ∙ sym (ap (λ c. returned (bearer c)) (ap (λ (x : Shared W R.F). x.cache) f ∙ same))

    -- The header that a task returns was granted.
    pub Move-Given :
        (u : Shared W R.F) (q : Pc) (h : Headers) → Moves u q → q ≡ returned h → Given h u.replies
    Move-Given u q h (serves c r e f g) w =
        bearer-Given u q h (serves c r e f g)
          (ap is_some (token_in f ∙ usable_keeps e) ∙ usable_there e) (written f refl g) w
    Move-Given u q h (finds c r l e f g) w =
        bearer-Given u q h (finds c r l e f g)
          (ap is_some (token_in f ∙ usable_keeps e) ∙ usable_there e) (written f refl g) w
    Move-Given u q h (mints reply c r e f g) w =
        let (token, kept, granted) =
          take_reply-returns R lib grant quiet reply s.shared.cache c e in
        bearer-Given u q h (mints reply c r e f g) (ap is_some (token_in f ∙ kept))
          (written f refl g) w
    Move-Given u q h (waits c r e f g) w = cc
    Move-Given u q h (asks c d r l e o f g) w = cc
    Move-Given u q h (gets_none reply x c r e f g) w = cc
    Move-Given u q h (stops_waiting x r f g) w = cc
    Move-Given u q h (stops_minting x r f g) w = cc
