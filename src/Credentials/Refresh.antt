-- ===== src/Credentials/Refresh.antt =====
-- What `_refresh` makes of the replies of a token endpoint.
use asyncio_otlp_client.Base.{
  ℕ, ◌≡◌, refl, ◌∙◌, Bool, true, false, Option, none, some, Str, leb, Exc, Result, ok, raised,
  stuck, ◌>>=◌, transport_error, arith, Returns, Returns-bind, Returns-ok, Bool-cases, inl, inr,
  text,
}
use asyncio_otlp_client.Base.Int.{pos}
use asyncio_otlp_client.Floats.{Floats, IsOrder, max_of}
use asyncio_otlp_client.Encoding.Json.Tree.{
  Json, null, boolean, integer, number, string, array, object,
}
use asyncio_otlp_client.Encoding.Json.Encoder.{get_or}
use asyncio_otlp_client.Credentials.Reply.{
  TokenFormats, TokenReply, unreachable, replied, truthy, float_of, well_formed, stated_ttl,
  granted, read_body, token_of,
}

-- an `OTLPTransportError`, which the client retries
unfoldable pub is_transport_error : Exc → Bool
is_transport_error (transport_error message) = true
is_transport_error _ = false

-- the code ends in one
unfoldable pub is_transient : {A : Type 0} → Result A → Bool
unfolding is_transport_error
is_transient (raised e) = is_transport_error e
is_transient _ = false

-- the endpoint gave no answer, or one of a status of 500 or more
unfoldable pub is_outage : TokenReply → Bool
is_outage (unreachable message) = true
is_outage (replied status raw) = leb 500 status

module _ (R : Floats) (lib : TokenFormats R.F) where
  well_formed-float_of :
      (v : Json R.F) → is_transient (well_formed R lib (float_of R lib v)) ≡ false
  unfolding is_transport_error is_transient well_formed float_of
  well_formed-float_of null = refl
  well_formed-float_of (boolean true) = refl
  well_formed-float_of (boolean false) = refl
  well_formed-float_of (integer n) = ground arith
  well_formed-float_of (number x) = refl
  well_formed-float_of (string s) = ground arith
  well_formed-float_of (array vs) = refl
  well_formed-float_of (object ms) = refl

  stated_ttl-is_transient : (d : R.F) (v : Json R.F) → is_transient (stated_ttl R lib d v) ≡ false
  unfolding is_transport_error is_transient stated_ttl
  stated_ttl-is_transient d null = refl
  stated_ttl-is_transient d (boolean b) = well_formed-float_of (boolean b)
  stated_ttl-is_transient d (integer n) = well_formed-float_of (integer n)
  stated_ttl-is_transient d (number x) = well_formed-float_of (number x)
  stated_ttl-is_transient d (string s) = well_formed-float_of (string s)
  stated_ttl-is_transient d (array vs) = well_formed-float_of (array vs)
  stated_ttl-is_transient d (object ms) = well_formed-float_of (object ms)

  bind-is_transient :
      {A B : Type 0} (r : Result A) (f : A → B)
      → is_transient (r >>= λ a. ok (f a)) ≡ is_transient r
  unfolding is_transport_error is_transient
  bind-is_transient (ok a) f = refl
  bind-is_transient (raised e) f = refl
  bind-is_transient stuck f = refl

  granted-is_transient : (d : R.F) (v : Json R.F) → is_transient (granted R lib d v) ≡ false
  unfolding is_transport_error is_transient granted
  granted-is_transient d null = refl
  granted-is_transient d (boolean b) = refl
  granted-is_transient d (integer n) = refl
  granted-is_transient d (number x) = refl
  granted-is_transient d (string s) = refl
  granted-is_transient d (array vs) = refl
  granted-is_transient d (object ms) =
      let ttl = stated_ttl R lib d (get_or (text "expires_in") null ms) in
      elim (Bool-cases (truthy R (get_or (text "access_token") null ms))) [
        | inl present ↦ rw present (
            bind-is_transient ttl (λ t.
              (lib.str_of (get_or (text "access_token") null ms), max_of R t (R.of_int (pos 0))))
            ∙ stated_ttl-is_transient d (get_or (text "expires_in") null ms))
        | inr absent ↦ rw absent refl
      ]

  read_body-is_transient :
      (d : R.F) (status : ℕ) (doc : Option (Json R.F))
      → is_transient (read_body R lib d status doc) ≡ false
  unfolding is_transport_error is_transient read_body
  read_body-is_transient d status none = refl
  read_body-is_transient d status (some body) = elim (Bool-cases (leb 400 status)) [
    | inl refused ↦ rw refused refl
    | inr taken ↦ rw taken (granted-is_transient d body)
  ]

  -- A refresh fails with the error that the client retries exactly if the endpoint gave no answer or a
  -- status of 500 or more; any other failure is final.
  pub token_of-is_transient :
      (default_ttl : R.F) (reply : TokenReply)
      → is_transient (token_of R lib default_ttl reply) ≡ is_outage reply
  unfolding is_transport_error is_transient is_outage token_of
  token_of-is_transient d (unreachable message) = refl
  token_of-is_transient d (replied status raw) = elim (Bool-cases (leb 500 status)) [
    | inl outage ↦ rw outage refl
    | inr answered ↦ rw answered (read_body-is_transient d status (lib.loads raw))
  ]

  module _ (order : IsOrder R) where
    abbrev NotNegative : Str × R.F → Type 0
    NotNegative minted = R.lt (minted.1) (R.of_int (pos 0)) ≡ false

    max_of-zero : (a : R.F) → R.lt (max_of R a (R.of_int (pos 0))) (R.of_int (pos 0)) ≡ false
    max_of-zero a = ground (arith, order.irrefl (R.of_int (pos 0)))

    granted-ttl : (d : R.F) (v : Json R.F) → Returns NotNegative (granted R lib d v)
    unfolding granted
    granted-ttl d null = tt
    granted-ttl d (boolean b) = tt
    granted-ttl d (integer n) = tt
    granted-ttl d (number x) = tt
    granted-ttl d (string s) = tt
    granted-ttl d (array vs) = tt
    granted-ttl d (object ms) =
        elim (Bool-cases (truthy R (get_or (text "access_token") null ms))) [
          | inl present ↦ rw present (
              Returns-bind NotNegative (stated_ttl R lib d (get_or (text "expires_in") null ms)) _
                (λ t e. max_of-zero t))
          | inr absent ↦ rw absent tt
        ]

    read_body-ttl :
        (d : R.F) (status : ℕ) (doc : Option (Json R.F))
        → Returns NotNegative (read_body R lib d status doc)
    unfolding read_body
    read_body-ttl d status none = tt
    read_body-ttl d status (some body) = elim (Bool-cases (leb 400 status)) [
      | inl refused ↦ rw refused tt
      | inr taken ↦ rw taken (granted-ttl d body)
    ]

    token_of-Returns : (d : R.F) (reply : TokenReply) → Returns NotNegative (token_of R lib d reply)
    unfolding token_of
    token_of-Returns d (unreachable message) = tt
    token_of-Returns d (replied status raw) = elim (Bool-cases (leb 500 status)) [
      | inl outage ↦ rw outage tt
      | inr answered ↦ rw answered (read_body-ttl d status (lib.loads raw))
    ]

    -- The lifetime of a token that a refresh takes is not negative, whatever `expires_in` says.
    pub token_of-ttl :
        (default_ttl : R.F) (reply : TokenReply) (token : Str) (ttl : R.F)
        → token_of R lib default_ttl reply ≡ ok (token, ttl)
        → R.lt ttl (R.of_int (pos 0)) ≡ false
    token_of-ttl d reply token ttl e =
        Returns-ok NotNegative (token_of R lib d reply) (token, ttl) e (token_of-Returns d reply)
