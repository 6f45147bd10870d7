-- ===== src/Tests/Credentials.antt =====
-- Tokens that a small endpoint grants, with a clock that the state carries.
use asyncio_otlp_client.Base.{
  ℕ, ◌≡◌, refl, true, false, none, some, [], ◌∷◌, text, str_eq, ok, raised, permanent_error, ltb,
}
use asyncio_otlp_client.Base.Dict.{lookup, last_value}
use asyncio_otlp_client.Base.Int.{negsuc, pos_part}
use asyncio_otlp_client.Encoding.Json.Tree.{integer, string, object, member, no_members}
use asyncio_otlp_client.Encoding.Json.Encoder.{get_or}
use asyncio_otlp_client.Credentials.Reply.{
  TokenFormats, TokenReply, replied, token_of, read_body, granted, truthy, stated_ttl, well_formed,
  float_of,
}
use asyncio_otlp_client.Credentials.Defs.{
  style_post, Grant, Minting, TokenLibraries, grant_form, auth_header,
}
use asyncio_otlp_client.Credentials.Refresh.{
  is_transient, is_outage, token_of-is_transient, token_of-ttl,
}
use asyncio_otlp_client.Credentials.Headers.{secret_in, credential_of, grant_form-secret}
use asyncio_otlp_client.Tests.Samples.{ticks, ticks-IsOrder}

abbrev pub State : Type 0
State = Minting ℕ ℕ

-- A body that begins with 1 grants a token for ever less than no time; others are not JSON.
abbrev formats : TokenFormats ℕ
formats = record {
  loads = λ raw. elim raw [
    | [] ↦ none
    | b ∷ bs ↦ some (
        object (
          member (text "access_token") (string (text "tok"))
            (member (text "expires_in") (integer (negsuc 4)) no_members)))
  ];
  float_of_int = λ n. some (pos_part n);
  str_of = λ v. text "tok";
}

abbrev pub library : TokenReply → TokenLibraries ℕ ℕ
library reply = record {
  monotonic = λ s. (ok s.outside, s);
  acquire = λ s. (ok tt, s);
  release = λ s. (ok tt, s);
  open_session = λ s. (ok tt, s);
  close_session = λ s. (ok tt, s);
  post = λ url form headers s. (ok reply, s);
  b64 = λ s. s;
  quote_plus = λ s. s;
  formats = formats;
}

abbrev pub grant : Grant ℕ
grant = record {
  token_url = text "https://id";
  client_id = text "me";
  client_secret = text "secret";
  scope = some (text "write");
  extra_params = (text "client_secret", text "other") ∷ [];
  auth_style = style_post;
  expiry_skew = 3;
  default_ttl = 30;
}

abbrev start : State
start = record {
  token = none;
  expires_at = 0;
  has_session = true;
  owns_session = false;
  outside = 5;
}

-- the same with a token that another task minted
abbrev served : State
served = record start { token = some (text "new"); expires_at = 50 }

abbrev granting : TokenLibraries ℕ ℕ
granting = library (replied 200 (1 ∷ []))

-- a lock that another task holds until it has minted a token
abbrev contended : TokenLibraries ℕ ℕ
contended = record granting { acquire = λ s. (ok tt, served) }

-- an endpoint that refuses
abbrev refusing : TokenLibraries ℕ ℕ
refusing = library (replied 401 [])

token_of-is_transient_example :
    is_transient (token_of ticks formats 30 (replied 503 [])) ≡ is_outage (replied 503 [])
token_of-is_transient_example = token_of-is_transient ticks formats 30 (replied 503 [])

token_of-granted : token_of ticks formats 30 (replied 200 (1 ∷ [])) ≡ ok (text "tok", 0)
unfolding text str_eq token_of read_body granted get_or truthy stated_ttl well_formed float_of
token_of-granted = refl

token_of-refused :
    token_of ticks formats 30 (replied 401 [])
    ≡ raised (permanent_error (text "token endpoint returned a non-JSON body"))
unfolding token_of read_body
token_of-refused = refl

token_of-ttl_example : ltb 0 0 ≡ false
token_of-ttl_example =
    token_of-ttl ticks formats ticks-IsOrder 30 (replied 200 (1 ∷ [])) (text "tok") 0
      token_of-granted

grant_form-secret_example :
    (lookup (text "client_secret") (grant_form grant)
      ≡ secret_in style_post
          (text "secret")
          (last_value (text "client_secret") ((text "client_secret", text "other") ∷ [])))
    × (lookup (text "Authorization") (auth_header ticks granting grant)
        ≡ credential_of style_post granting.b64 granting.quote_plus (text "me") (text "secret"))
grant_form-secret_example = grant_form-secret ticks granting grant

abbrev kept : State
kept = record start { token = some (text "tok"); expires_at = 5 }
