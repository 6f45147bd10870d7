-- ===== src/Credentials/Ends.antt =====
-- `_refresh` makes a token or an exception of every reply.
use asyncio_otlp_client.Base.{
  ℕ, ◌≡◌, refl, ◌∙◌, true, false, Option, none, some, Result, ok, raised, stuck, is_stuck, ◌>>=◌,
  arith, Bool-cases, inl, inr, text, leb,
}
use asyncio_otlp_client.Base.Int.{pos}
use asyncio_otlp_client.Floats.{Floats, max_of}
use asyncio_otlp_client.Encoding.Json.Tree.{
  Json, null, boolean, integer, number, string, array, object,
}
use asyncio_otlp_client.Encoding.Json.Encoder.{get_or}
use asyncio_otlp_client.Credentials.Reply.{
  TokenFormats, TokenReply, unreachable, replied, truthy, float_of, well_formed, stated_ttl,
  granted, read_body, token_of,
}

module _ (R : Floats) (formats : TokenFormats R.F) where
  well_formed-ends :
      (v : Json R.F) → is_stuck (well_formed R formats (float_of R formats v)) ≡ false
  unfolding well_formed float_of
  well_formed-ends null = refl
  well_formed-ends (boolean true) = refl
  well_formed-ends (boolean false) = refl
  well_formed-ends (integer n) = ground arith
  well_formed-ends (number x) = refl
  well_formed-ends (string s) = ground arith
  well_formed-ends (array vs) = refl
  well_formed-ends (object ms) = refl

  stated_ttl-ends : (d : R.F) (v : Json R.F) → is_stuck (stated_ttl R formats d v) ≡ false
  unfolding stated_ttl
  stated_ttl-ends d null = refl
  stated_ttl-ends d (boolean b) = well_formed-ends (boolean b)
  stated_ttl-ends d (integer n) = well_formed-ends (integer n)
  stated_ttl-ends d (number x) = well_formed-ends (number x)
  stated_ttl-ends d (string s) = well_formed-ends (string s)
  stated_ttl-ends d (array vs) = well_formed-ends (array vs)
  stated_ttl-ends d (object ms) = well_formed-ends (object ms)

  bind-ends :
      {A B : Type 0} (r : Result A) (f : A → B) → is_stuck (r >>= λ a. ok (f a)) ≡ is_stuck r
  bind-ends (ok a) f = refl
  bind-ends (raised e) f = refl
  bind-ends stuck f = refl

  granted-ends : (d : R.F) (v : Json R.F) → is_stuck (granted R formats d v) ≡ false
  unfolding granted
  granted-ends d null = refl
  granted-ends d (boolean b) = refl
  granted-ends d (integer n) = refl
  granted-ends d (number x) = refl
  granted-ends d (string s) = refl
  granted-ends d (array vs) = refl
  granted-ends d (object ms) =
      let ttl = stated_ttl R formats d (get_or (text "expires_in") null ms) in
      elim (Bool-cases (truthy R (get_or (text "access_token") null ms))) [
        | inl present ↦ rw present (
            bind-ends ttl (λ t. (
              formats.str_of (get_or (text "access_token") null ms),
              max_of R t (R.of_int (pos 0)),
            ))
            ∙ stated_ttl-ends d (get_or (text "expires_in") null ms))
        | inr absent ↦ rw absent refl
      ]

  read_body-ends :
      (d : R.F) (status : ℕ) (doc : Option (Json R.F))
      → is_stuck (read_body R formats d status doc) ≡ false
  unfolding read_body
  read_body-ends d status none = refl
  read_body-ends d status (some body) = elim (Bool-cases (leb 400 status)) [
    | inl refused ↦ rw refused refl
    | inr taken ↦ rw taken (granted-ends d body)
  ]

  pub token_of-ends : (d : R.F) (reply : TokenReply) → is_stuck (token_of R formats d reply) ≡ false
  unfolding token_of
  token_of-ends d (unreachable message) = refl
  token_of-ends d (replied status raw) = elim (Bool-cases (leb 500 status)) [
    | inl outage ↦ rw outage refl
    | inr answered ↦ rw answered (read_body-ends d status (formats.loads raw))
  ]
