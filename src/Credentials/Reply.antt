-- ===== src/Credentials/Reply.antt =====
-- The reply of a token endpoint, as `OAuth2ClientCredentials._refresh` of src/otlp_client/credentials.py
-- reads it.
use asyncio_otlp_client.Base.{
  ℕ, Bool, true, false, not, Option, none, some, [], ◌++◌, Str, text, is_empty, leb, decimal,
  Result, ◌>>=◌, ok, raised, type_error, value_error, transport_error, permanent_error, other_error,
  if◌then◌else◌,
}
use asyncio_otlp_client.Base.Int.{ℤ, pos}
use asyncio_otlp_client.Base.Int as Int
use asyncio_otlp_client.Floats.{Floats, max_of}
use asyncio_otlp_client.Model.Common.{Bytes}
use asyncio_otlp_client.Encoding.Json.Tree.{
  Json, null, boolean, integer, number, string, array, object, no_items, item, no_members, member,
}
use asyncio_otlp_client.Encoding.Json.Encoder.{get_or}

-- what a POST to the token endpoint ends in: no answer, with the text of the error, or a response
pub data TokenReply : Type 0 where
  unreachable : Str → TokenReply
  replied : (status : ℕ) (raw : Bytes) → TokenReply

-- What reading a reply uses: `json.loads`, with `none` for its `ValueError`, `float` of an int, with `none`
-- for its `OverflowError`, and `str` of a JSON value.
pub record TokenFormats (F : Type 0) : Type 0 where
  pub loads : Bytes → Option (Json F)
  pub float_of_int : ℤ → Option F
  pub str_of : Json F → Str

-- truth of a JSON value
unfoldable pub truthy : (R : Floats) → Json R.F → Bool
truthy R null = false
truthy R (boolean b) = b
truthy R (integer n) = not (Int.is_zero n)
truthy R (number x) = not (R.is_zero x)
truthy R (string s) = not (is_empty s)
truthy R (array no_items) = false
truthy R (array (item v vs)) = true
truthy R (object no_members) = false
truthy R (object (member k v ms)) = true

module _ (R : Floats) (lib : TokenFormats R.F) where
  -- the detail of a rejection
  unfoldable pub rejection_detail : Json R.F → Str
  unfolding get_or truthy
  rejection_detail (object ms) =
      let error = lib.str_of (get_or (text "error") (string (text "unknown_error")) ms) in
      let description = get_or (text "error_description") null ms in
      if truthy R description then error ++ text ": " ++ lib.str_of description else error
  rejection_detail _ = []

  -- `float(expires_in)`, whose messages are read by nothing
  unfoldable pub float_of : Json R.F → Result R.F
  float_of null = raised (type_error [])
  float_of (boolean true) = ok (R.of_int (pos 1))
  float_of (boolean false) = ok (R.of_int (pos 0))
  float_of (integer n) = elim (lib.float_of_int n) [
    | none ↦ raised (other_error (text "int too large to convert to float"))
    | some x ↦ ok x
  ]
  float_of (number x) = ok x
  float_of (string s) = elim (R.parse s) [ none ↦ raised (value_error []) | some x ↦ ok x ]
  float_of (array vs) = raised (type_error [])
  float_of (object ms) = raised (type_error [])

  -- `except (TypeError, ValueError)` around it
  unfoldable pub well_formed : Result R.F → Result R.F
  well_formed (raised (type_error t)) =
      raised (permanent_error (text "token endpoint returned a malformed expires_in"))
  well_formed (raised (value_error t)) =
      raised (permanent_error (text "token endpoint returned a malformed expires_in"))
  well_formed r = r

  -- the lifetime, before it is made non-negative
  unfoldable pub stated_ttl : R.F → Json R.F → Result R.F
  unfolding float_of well_formed
  stated_ttl default_ttl null = ok default_ttl
  stated_ttl default_ttl v = well_formed (float_of v)

  -- the token and its lifetime in a body of a status below 400
  unfoldable pub granted : R.F → Json R.F → Result (Str × R.F)
  unfolding get_or truthy stated_ttl
  granted default_ttl (object ms) =
      let token = get_or (text "access_token") null ms in
      let ttl = stated_ttl default_ttl (get_or (text "expires_in") null ms) in
      if truthy R token
      then (ttl >>= λ t. ok (lib.str_of token, max_of R t (R.of_int (pos 0))))
      else raised (permanent_error (text "token endpoint returned no access_token"))
  granted default_ttl _ = raised (permanent_error (text "token endpoint returned no access_token"))

  -- the body of a status below 500, if it is JSON
  unfoldable pub read_body : R.F → ℕ → Option (Json R.F) → Result (Str × R.F)
  unfolding rejection_detail granted
  read_body default_ttl status none =
      raised (permanent_error (text "token endpoint returned a non-JSON body"))
  read_body default_ttl status (some body) =
      let detail = rejection_detail body in
      if leb 400 status
      then raised
          (permanent_error (text "token endpoint rejected the credentials (" ++ detail ++ text ")"))
      else granted default_ttl body

  -- what `_refresh` makes of a reply
  unfoldable pub token_of : R.F → TokenReply → Result (Str × R.F)
  unfolding read_body
  token_of default_ttl (unreachable message) =
      raised (transport_error (text "could not reach the token endpoint: " ++ message))
  token_of default_ttl (replied status raw) =
      if leb 500 status
      then raised (transport_error (text "token endpoint returned status " ++ decimal status))
      else read_body default_ttl status (lib.loads raw)
