-- ===== src/Credentials/Defs.antt =====
-- src/otlp_client/credentials.py: BearerToken, BasicAuth and OAuth2ClientCredentials.
use asyncio_otlp_client.Base.{
  Bool, true, false, ◌&&◌, Option, none, some, [], ◌∷◌, ◌++◌, Str, text, is_empty, ok,
  if◌then◌else◌, or_default,
}
use asyncio_otlp_client.Base.Dict.{Dict, insert, merge}
use asyncio_otlp_client.Effects.{Eff, pure, raise, try_, ◌>>=◌, ◌>>◌}
use asyncio_otlp_client.Floats.{Floats}
use asyncio_otlp_client.Config.Defs.{Headers}
use asyncio_otlp_client.Client.Seams.{CredentialProvider}
use asyncio_otlp_client.Credentials.Reply.{TokenFormats, TokenReply, token_of}

-- the headers of a token
unfoldable pub authorization : Str → Str → Headers
authorization scheme credential = (text "authorization", scheme ++ text " " ++ credential) ∷ []

-- `BearerToken`, with a `str` or a callable as its source
pub data Source (W : Type 0) : Type 0 where
  held : Str → Source W
  fetched : Eff W Str → Source W

module _ {W : Type 0} where
  unfoldable pub source_token : Source W → Eff W Str
  source_token (held token) = pure token
  source_token (fetched source) = source

  unfoldable pub bearer_token : Source W → CredentialProvider W
  unfolding source_token authorization
  bearer_token source = record {
    headers = λ kind. source_token source >>= λ token. pure (authorization (text "Bearer") token);
    invalidate = λ kind. pure tt;
  }

  -- `BasicAuth`; `b64` is base64 of the UTF-8 encoding
  unfoldable pub basic_auth : (Str → Str) → Str → Str → CredentialProvider W
  unfolding authorization
  basic_auth b64 username password = record {
    headers = λ kind. pure (authorization (text "Basic") (b64 (username ++ text ":" ++ password)));
    invalidate = λ kind. pure tt;
  }

pub data AuthStyle : Type 0 where
  style_post style_basic : AuthStyle

-- the arguments of `OAuth2ClientCredentials`
pub record Grant (F : Type 0) : Type 0 where
  pub token_url : Str
  pub client_id : Str
  pub client_secret : Str
  pub scope : Option Str
  pub extra_params : Dict Str
  pub auth_style : AuthStyle
  pub expiry_skew : F
  pub default_ttl : F

-- What `OAuth2ClientCredentials` keeps, beside the world outside.
pub record Minting (W F : Type 0) : Type 0 where
  pub token : Option Str
  pub expires_at : F
  pub has_session : Bool
  pub owns_session : Bool
  pub outside : W

-- What it uses: the clock, its lock, making and closing a session of aiohttp, the POST on one, base64 of the UTF-8 encoding,
-- `quote_plus` and the formats of a reply. Other tasks may act while the lock or the response is awaited.
pub record TokenLibraries (W F : Type 0) : Type 0 where
  pub monotonic : Eff (Minting W F) F
  pub acquire : Eff (Minting W F) (Unit {0})
  pub release : Eff (Minting W F) (Unit {0})
  pub open_session : Eff (Minting W F) (Unit {0})
  pub close_session : Eff (Minting W F) (Unit {0})
  pub post : Str → Dict Str → Dict Str → Eff (Minting W F) TokenReply
  pub b64 : Str → Str
  pub quote_plus : Str → Str
  pub formats : TokenFormats F

-- the end of `_form`
unfoldable pub client_fields : AuthStyle → Str → Str → Dict Str → Dict Str
unfolding insert
client_fields style_basic client_id client_secret form = form
client_fields style_post client_id client_secret form =
    insert (text "client_secret") client_secret (insert (text "client_id") client_id form)

-- `_form`
unfoldable pub grant_form : {F : Type 0} → Grant F → Dict Str
unfolding insert merge client_fields
grant_form grant =
    let base = merge ((text "grant_type", text "client_credentials") ∷ []) grant.extra_params in
    let scope = or_default [] grant.scope in
    client_fields grant.auth_style grant.client_id grant.client_secret
      (if is_empty scope then base else insert (text "scope") scope base)

module _ {W : Type 0} (R : Floats) (lib : TokenLibraries W (R.F)) (grant : Grant R.F) where
  unfoldable pub basic_header : AuthStyle → Str → Str → Dict Str
  basic_header style_post client_id client_secret = []
  basic_header style_basic client_id client_secret =
      (
        text "Authorization",
        text "Basic "
            ++ lib.b64 (lib.quote_plus client_id ++ text ":" ++ lib.quote_plus client_secret),
      )
      ∷ []

  -- `_auth_header`
  unfoldable pub auth_header : Dict Str
  unfolding basic_header
  auth_header = basic_header grant.auth_style grant.client_id grant.client_secret

  -- `_usable`
  unfoldable pub usable_by : Option Str → Eff (Minting W R.F) Bool
  usable_by none = pure false
  usable_by (some token) =
      lib.monotonic >>= λ now. λ s. (ok (R.lt now (R.sub s.expires_at grant.expiry_skew)), s)

  unfoldable pub usable : Eff (Minting W R.F) Bool
  unfolding usable_by
  usable s = usable_by s.token s

  -- `_ensure_session`
  unfoldable pub ensure_session : Eff (Minting W R.F) (Unit {0})
  ensure_session s =
      let opened =
        (lib.open_session >> λ t. (ok tt, record t { has_session = true; owns_session = true }))
          s in
      if s.has_session then (ok tt, s) else opened

  -- the two assignments at the end of `_refresh`
  unfoldable pub keep_token : Str → R.F → Eff (Minting W R.F) (Unit {0})
  keep_token token ttl s =
      (lib.monotonic >>= λ now. λ t. (ok tt, record t { expires_at = R.add now ttl }))
        (record s { token = some token })

  -- what `_refresh` does with a reply
  unfoldable pub take_reply : TokenReply → Eff (Minting W R.F) (Unit {0})
  unfolding token_of keep_token
  take_reply reply = (λ s. (token_of R lib.formats grant.default_ttl reply, s)) >>= λ minted.
      keep_token minted.0 minted.1

  -- the request of `_refresh`
  unfoldable pub ask : Eff (Minting W R.F) TokenReply
  unfolding ensure_session grant_form auth_header
  ask = ensure_session >> lib.post grant.token_url (grant_form grant) auth_header

  -- `_refresh`
  unfoldable pub refresh : Eff (Minting W R.F) (Unit {0})
  unfolding ask take_reply
  refresh = ask >>= take_reply

  -- the body of `async with self._lock`
  unfoldable pub refresh_unless : Bool → Eff (Minting W R.F) (Unit {0})
  unfolding refresh
  refresh_unless true = pure tt
  refresh_unless false = refresh

  -- the lock is released also when the body raises
  unfoldable pub with_lock : Eff (Minting W R.F) (Unit {0}) → Eff (Minting W R.F) (Unit {0})
  with_lock body = lib.acquire >> try_ body (λ u. lib.release) (λ e. lib.release >> raise e)

  -- the header of the token that is kept; an f-string writes a missing one as `None`
  unfoldable pub kept_header : Eff (Minting W R.F) Headers
  unfolding authorization
  kept_header s = (ok (authorization (text "Bearer") (or_default (text "None") s.token)), s)

  -- `headers`
  unfoldable pub minted_headers_if : Bool → Eff (Minting W R.F) Headers
  unfolding usable refresh_unless with_lock kept_header
  minted_headers_if true = kept_header
  minted_headers_if false = with_lock (usable >>= refresh_unless) >> kept_header

  unfoldable pub minted_headers : Eff (Minting W R.F) Headers
  unfolding usable minted_headers_if
  minted_headers = usable >>= minted_headers_if

  -- `invalidate`
  unfoldable pub drop_token : Eff (Minting W R.F) (Unit {0})
  drop_token s = (ok tt, record s { token = none })

  -- `aclose`
  unfoldable pub close_owned : Eff (Minting W R.F) (Unit {0})
  close_owned s =
      let closed = lib.close_session s in
      if s.owns_session && s.has_session then closed else (ok tt, s)

  unfoldable pub client_credentials : CredentialProvider (Minting W R.F)
  unfolding minted_headers drop_token
  client_credentials = record { headers = λ kind. minted_headers; invalidate = λ kind. drop_token }
