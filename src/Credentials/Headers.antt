-- ===== src/Credentials/Headers.antt =====
-- The headers of OAuth2ClientCredentials: when a token is minted, and what is kept of it.
use asyncio_otlp_client.Base.{
  ◌≡◌, refl, ap, ◌∙◌, Bool, true, false, Option, none, some, [], ◌∷◌, Str, text, str_eq, Exc, ok,
  raised, is_empty, if◌then◌else◌, or_default, ◌++◌,
}
use asyncio_otlp_client.Base.Dict.{
  Dict, lookup, insert, merge, last_value, lookup-insert, lookup-merge,
}
use asyncio_otlp_client.Effects.{bind-ok, try_, raise, ◌>>◌}
use asyncio_otlp_client.Floats.{Floats}
use asyncio_otlp_client.Credentials.Reply.{TokenReply, token_of}
use asyncio_otlp_client.Credentials.Defs.{
  AuthStyle, style_post, style_basic, Grant, Minting, TokenLibraries, authorization, client_fields,
  grant_form, basic_header, auth_header, usable, usable_by, ask, keep_token, take_reply, refresh,
  refresh_unless, with_lock, kept_header, minted_headers, minted_headers_if, drop_token,
}

-- the value that the form has for the secret
unfoldable pub secret_in : AuthStyle → Str → Option Str → Option Str
secret_in style_post secret other = some secret
secret_in style_basic secret other = other

-- the value of the header `Authorization`: under BASIC the id and the secret, quoted
unfoldable pub credential_of : AuthStyle → (Str → Str) → (Str → Str) → Str → Str → Option Str
credential_of style_post b64 quote client_id secret = none
credential_of style_basic b64 quote client_id secret =
    some (text "Basic " ++ b64 (quote client_id ++ text ":" ++ quote secret))

or_none : (o : Option Str) → (elim o as (λ x. Option Str) [ some v ↦ some v | none ↦ none ]) ≡ o
or_none none = refl
or_none (some v) = refl

client_fields-secret :
    (style : AuthStyle) (client_id secret : Str) (d : Dict Str)
    → lookup (text "client_secret") (client_fields style client_id secret d)
      ≡ secret_in style secret (lookup (text "client_secret") d)
unfolding text str_eq client_fields secret_in
client_fields-secret style_post client_id secret d =
    lookup-insert (text "client_secret") (text "client_secret") secret
      (insert (text "client_id") client_id d)
client_fields-secret style_basic client_id secret d = refl

module _ {W : Type 0} (R : Floats) (lib : TokenLibraries W (R.F)) (grant : Grant R.F) where
  basic_header-credential :
      (style : AuthStyle) (client_id secret : Str)
      → lookup (text "Authorization") (basic_header R lib grant style client_id secret)
        ≡ credential_of style lib.b64 lib.quote_plus client_id secret
  unfolding text str_eq lookup basic_header credential_of
  basic_header-credential style_post client_id secret = refl
  basic_header-credential style_basic client_id secret = refl

  form_base-secret :
      lookup
        (text "client_secret")
        (merge ((text "grant_type", text "client_credentials") ∷ []) grant.extra_params)
      ≡ last_value (text "client_secret") grant.extra_params
  unfolding text str_eq lookup
  form_base-secret =
      lookup-merge (text "client_secret") ((text "grant_type", text "client_credentials") ∷ [])
        grant.extra_params
      ∙ or_none (last_value (text "client_secret") grant.extra_params)

  scoped-secret :
      (b : Bool) (scope : Str) (d : Dict Str)
      → lookup (text "client_secret") (if b then d else insert (text "scope") scope d)
        ≡ lookup (text "client_secret") d
  unfolding text str_eq
  scoped-secret true scope d = refl
  scoped-secret false scope d = lookup-insert (text "scope") (text "client_secret") scope d

  -- Under POST the form of the token request has the client secret, whatever `extra_params` says, and
  -- there is no Authorization header; under BASIC the form has for `client_secret` what `extra_params`
  -- has, if anything, and the header is `Basic` with the base64 of the quoted id, a colon and the quoted
  -- secret.
  pub grant_form-secret :
      (lookup (text "client_secret") (grant_form grant)
        ≡ secret_in grant.auth_style grant.client_secret
            (last_value (text "client_secret") grant.extra_params))
      × (lookup (text "Authorization") (auth_header R lib grant)
          ≡ credential_of grant.auth_style lib.b64 lib.quote_plus grant.client_id
              grant.client_secret)
  unfolding grant_form auth_header
  grant_form-secret = (
    client_fields-secret grant.auth_style grant.client_id grant.client_secret _
        ∙ ap (secret_in grant.auth_style grant.client_secret) (
            scoped-secret (is_empty (or_default [] grant.scope)) (or_default [] grant.scope) _
            ∙ form_base-secret),
    basic_header-credential grant.auth_style grant.client_id grant.client_secret,
  )

  usable-fresh :
      (s s' : Minting W R.F) (token : Str) (now : R.F)
      → s.token ≡ some token
      → lib.monotonic s ≡ (ok now, s')
      → R.lt now (R.sub s'.expires_at grant.expiry_skew) ≡ true
      → usable R lib grant s ≡ (ok true, s')
  unfolding usable usable_by
  usable-fresh s s' token now cached clock fresh =
      ap (λ o. usable_by R lib grant o s) cached ∙ rw (clock, fresh) refl

  -- A token that is not within `expiry_skew` of its expiry is used without the lock and without a request.
  pub minted_headers-cached :
      (s s' : Minting W R.F) (token : Str) (now : R.F)
      → s.token ≡ some token
      → lib.monotonic s ≡ (ok now, s')
      → s'.token ≡ some token
      → R.lt now (R.sub s'.expires_at grant.expiry_skew) ≡ true
      → minted_headers R lib grant s ≡ (ok (authorization (text "Bearer") token), s')
  unfolding minted_headers minted_headers_if usable usable_by kept_header
  minted_headers-cached s s' token now cached clock kept fresh =
      bind-ok (usable R lib grant) (minted_headers_if R lib grant)
        (usable-fresh s s' token now cached clock fresh)
      ∙ rw kept refl

  -- After `invalidate` the token is not used again: unless another task mints one while this call waits
  -- for the lock, it asks the endpoint, releases the lock, and returns the header of what is kept then.
  pub minted_headers-invalidated :
      (s s' : Minting W R.F)
      → lib.acquire (drop_token R lib grant s).1 ≡ (ok tt, s')
      → s'.token ≡ none
      → minted_headers R lib grant (drop_token R lib grant s).1
        ≡ (try_ (refresh R lib grant) (λ u. lib.release) (λ e. lib.release >> raise e)
              >> kept_header R lib grant)
            s'
  unfolding minted_headers minted_headers_if usable usable_by with_lock refresh_unless drop_token
  minted_headers-invalidated s s' acquired dropped = rw (acquired, dropped) refl

  -- A call that finds a usable token once it has the lock makes no request: it returns the token that
  -- another task minted while it waited.
  minted_headers-collapsed :
      (s s₁ s₂ s₃ s₄ : Minting W R.F) (token : Str)
      → usable R lib grant s ≡ (ok false, s₁)
      → lib.acquire s₁ ≡ (ok tt, s₂)
      → usable R lib grant s₂ ≡ (ok true, s₃)
      → lib.release s₃ ≡ (ok tt, s₄)
      → s₄.token ≡ some token
      → minted_headers R lib grant s ≡ (ok (authorization (text "Bearer") token), s₄)
  unfolding minted_headers minted_headers_if with_lock refresh_unless kept_header
  minted_headers-collapsed s s₁ s₂ s₃ s₄ token expired acquired minted released kept =
      rw (expired, acquired, minted, released, kept) refl

  take_reply-minted :
      (s s' : Minting W R.F) (reply : TokenReply) (token : Str) (ttl now : R.F)
      → token_of R lib.formats grant.default_ttl reply ≡ ok (token, ttl)
      → lib.monotonic (record s { token = some token }) ≡ (ok now, s')
      → take_reply R lib grant reply s ≡ (ok tt, record s' { expires_at = R.add now ttl })
  unfolding take_reply keep_token
  take_reply-minted s s' reply token ttl now minted clock = rw (minted, clock) refl

  -- A call that finds no usable token, before and after it waits for the lock, asks the endpoint once;
  -- where the reply grants a token, the call keeps it, with the time after the reply plus its lifetime
  -- as its expiry, releases the lock and returns the token in the header.
  minted_headers-minted :
      (s s₁ s₂ s₃ s₄ s₅ s₆ : Minting W R.F) (reply : TokenReply) (token : Str) (ttl now : R.F)
      → usable R lib grant s ≡ (ok false, s₁)
      → lib.acquire s₁ ≡ (ok tt, s₂)
      → usable R lib grant s₂ ≡ (ok false, s₃)
      → ask R lib grant s₃ ≡ (ok reply, s₄)
      → token_of R lib.formats grant.default_ttl reply ≡ ok (token, ttl)
      → lib.monotonic (record s₄ { token = some token }) ≡ (ok now, s₅)
      → lib.release (record s₅ { expires_at = R.add now ttl }) ≡ (ok tt, s₆)
      → s₆.token ≡ some token
      → minted_headers R lib grant s ≡ (ok (authorization (text "Bearer") token), s₆)
  unfolding minted_headers minted_headers_if with_lock refresh_unless refresh kept_header
  minted_headers-minted s s₁ s₂ s₃ s₄ s₅ s₆ reply token ttl now expired acquired still asked minted
        clock released kept =
      rw
        (
          expired,
          acquired,
          still,
          asked,
          take_reply-minted s₄ s₅ reply token ttl now minted clock,
          released,
          kept,
        )
        refl

  take_reply-failed :
      (s : Minting W R.F) (reply : TokenReply) (e : Exc)
      → token_of R lib.formats grant.default_ttl reply ≡ raised e
      → take_reply R lib grant reply s ≡ (raised e, s)
  unfolding take_reply
  take_reply-failed s reply e failed = rw failed refl

  -- Where the reply grants no token, the call raises its error, and the token and the expiry stay as the
  -- request left them: the lock is released from that very state.
  minted_headers-failed :
      (s s₁ s₂ s₃ s₄ s₅ : Minting W R.F) (reply : TokenReply) (e : Exc)
      → usable R lib grant s ≡ (ok false, s₁)
      → lib.acquire s₁ ≡ (ok tt, s₂)
      → usable R lib grant s₂ ≡ (ok false, s₃)
      → ask R lib grant s₃ ≡ (ok reply, s₄)
      → token_of R lib.formats grant.default_ttl reply ≡ raised e
      → lib.release s₄ ≡ (ok tt, s₅)
      → minted_headers R lib grant s ≡ (raised e, s₅)
  unfolding minted_headers minted_headers_if with_lock refresh_unless refresh
  minted_headers-failed s s₁ s₂ s₃ s₄ s₅ reply e expired acquired still asked failed released =
      rw (expired, acquired, still, asked, take_reply-failed s₄ reply e failed, released) refl
