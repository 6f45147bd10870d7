-- ===== src/Tests/Tokens.antt =====
-- Two tasks with one provider: one asks for a token, and the other finds it.
use asyncio_otlp_client.Base.{
  ℕ, ◌+◌, ◌≤◌, ◌≡◌, refl, true, false, some, [], ◌∷◌, Str, text, str_eq, ok, raised, inl, inr, ◌⊎◌,
  arith, Bool-cases, Exc, cancelled,
}
use asyncio_otlp_client.Base.Int.{pos, pos_part}
use asyncio_otlp_client.Encoding.Json.Tree.{integer, string, object, member, no_members}
use asyncio_otlp_client.Encoding.Json.Encoder.{get_or}
use asyncio_otlp_client.Credentials.Reply.{
  TokenFormats, TokenReply, replied, token_of, read_body, granted, truthy, stated_ttl, well_formed,
  float_of,
}
use asyncio_otlp_client.Credentials.Defs.{
  TokenLibraries, authorization, usable, usable_by, ensure_session, take_reply, keep_token,
  minted_headers,
}
use asyncio_otlp_client.Credentials.System.{
  waiting, minting, returned, failed, bearer, waits, finds, asks, mints, stops_minting, TokenSystem,
  update, runs, Reach, here, then_, started,
}
use asyncio_otlp_client.Credentials.Invariant.{IsQuiet, Inv, Granted}
use asyncio_otlp_client.Credentials.Safety.{
  minting_unique, returned-Granted, requests-bound, Reach-Inv,
}
use asyncio_otlp_client.Credentials.Runs.{Awaits, Ended, NoLock, minted_headers-Reach}
use asyncio_otlp_client.Tests.Samples.{ticks}
use asyncio_otlp_client.Tests.Credentials.{State, library, grant}

-- Every body grants a token for 60 ticks.
abbrev formats : TokenFormats ℕ
formats = record {
  loads = λ raw. some (
      object (
        member (text "access_token") (string (text "tok"))
          (member (text "expires_in") (integer (pos 60)) no_members)));
  float_of_int = λ n. some (pos_part n);
  str_of = λ v. text "tok";
}

abbrev reply : TokenReply
reply = replied 200 []

abbrev lib : TokenLibraries ℕ ℕ
lib = record (library reply) { formats = formats }

quiet : IsQuiet ticks lib
quiet = record { clock = λ s. (s.outside, s.outside, refl); opens = λ s. (s.outside, refl) }

abbrev Tasks : Type 0
Tasks = TokenSystem ticks lib grant

abbrev first : Tasks
first = started ticks lib grant true 5

abbrev queued : Tasks
queued = record first {
  pc = update ticks lib grant (update ticks lib grant first.pc 0 waiting) 1 waiting;
}

abbrev asking : Tasks
asking = record {
  shared = record (first.shared) { locked = true; requests = 1 };
  pc = update ticks lib grant queued.pc 0 minting;
}

abbrev cached : State
cached = record (first.shared.cache) { token = some (text "tok"); expires_at = 65 }

abbrev served : Tasks
served = record {
  shared = record (first.shared) { cache = cached; requests = 1; replies = reply ∷ [] };
  pc =
      update ticks lib grant (update ticks lib grant asking.pc 0 (returned (bearer cached))) 1
        (returned (bearer cached));
}

no_token : usable ticks lib grant first.shared.cache ≡ (ok false, first.shared.cache)
unfolding usable usable_by
no_token = refl

has_token : usable ticks lib grant cached ≡ (ok true, cached)
unfolding usable usable_by
has_token = refl

has_session : ensure_session ticks lib grant first.shared.cache ≡ (ok tt, first.shared.cache)
unfolding ensure_session
has_session = refl

keeps : take_reply ticks lib grant reply first.shared.cache ≡ (ok tt, cached)
unfolding text str_eq token_of read_body granted get_or truthy stated_ttl well_formed float_of
    take_reply keep_token
keeps = refl

queued-Reach : Reach ticks lib grant first queued
queued-Reach =
    then_
      (then_ here
        (runs 0 first.shared waiting (waits first.shared.cache refl no_token refl refl) refl))
      (runs 1 first.shared waiting (waits first.shared.cache refl no_token refl refl) refl)

asking-Reach : Reach ticks lib grant first asking
asking-Reach = then_ queued-Reach (
    runs 0 asking.shared minting
      (asks first.shared.cache first.shared.cache refl refl no_token has_session refl refl) refl)

served-Reach : Reach ticks lib grant first served
served-Reach =
    then_
      (then_ asking-Reach (
        runs 0 served.shared (returned (bearer cached)) (mints reply cached refl keeps refl refl)
          refl))
      (runs 1 served.shared (returned (bearer cached)) (finds cached refl refl has_token refl refl)
        refl)

minting_unique_example : ◌≡◌ {A = ℕ} 0 0
minting_unique_example = minting_unique ticks lib grant quiet true 5 asking-Reach 0 0 refl refl

returned-Granted_example :
    (token : Str) × (bearer cached ≡ authorization (text "Bearer") token)
    × Granted ticks lib grant quiet token (reply ∷ [])
returned-Granted_example =
    returned-Granted ticks lib grant quiet true 5 served-Reach 1 (bearer cached) refl

requests-bound_example : 1 ≤ 0 + 0 + 0 + 1
requests-bound_example = requests-bound ticks lib grant quiet true 5 served-Reach

-- While the lock is held, its holder is cancelled.
freed :
    (s : Tasks)
    → Inv ticks lib grant quiet s
    → s.pc 0 ≡ waiting
    → (t : Tasks) × Reach ticks lib grant s t
      × (t.pc 0 ≡ waiting)
      × (((t.shared.locked ≡ false) × (lib.acquire s.shared.cache ≡ (ok tt, t.shared.cache)))
          ⊎ ((e : Exc) × (lib.acquire s.shared.cache ≡ (raised e, t.shared.cache))))
freed s inv p = elim (Bool-cases s.shared.locked) [
  | inl taken ↦
      let (j, at) = inv.holder taken in
      let u = record (s.shared) { locked = false; fruitless = s.shared.fruitless + 1 } in
      (
        record { shared = u; pc = update ticks lib grant s.pc j (failed cancelled) },
        then_ here (runs j u (failed cancelled) (stops_minting cancelled at refl refl) refl),
        ground arith,
        inl (refl, refl),
      )
  | inr free ↦ (s, here, p, inl (free, refl))
]

abbrev awaits : Awaits ticks lib grant quiet 0
awaits = record {
  acquire = freed;
  post = λ s inv p. (s, here, p, inl (reply, refl));
  is_free = λ w. true;
  release = λ s. (s.outside, refl, refl);
}

minted_headers-Reach_example :
    (t : Tasks) × Reach ticks lib grant first t
    × Ended ticks lib grant quiet 0 (minted_headers ticks lib grant first.shared.cache) t
    × (NoLock ticks lib grant quiet first.shared.cache
        ⊎ (awaits.is_free t.shared.cache.outside ≡ true))
minted_headers-Reach_example =
    minted_headers-Reach ticks lib grant quiet 0 awaits first
      (Reach-Inv ticks lib grant quiet true 5 here) refl
