-- ===== src/Tests/Samples.antt =====
-- A world to run the code in: time in whole ticks, a clock that sleeps advance, and a collector
-- that counts what it is sent.
use Prim.Native.Nat.{◌/◌, ◌^◌}
use asyncio_otlp_client.Base.{
  ℕ, ◌+◌, ◌-◌, ◌*◌, false, Option, none, some, List, [], ◌∷◌, ltb, leb, ◌==◌, ◌&&◌, Str, ok,
  if◌then◌else◌, arith,
}
use asyncio_otlp_client.Base.Int.{pos_part}
use asyncio_otlp_client.Floats.{Floats, IsOrder}
use asyncio_otlp_client.Retry.Defs.{RetryPolicy, Hooks}

-- a text of digits, read from the left
abbrev read_digits : ℕ → Str → Option ℕ
read_digits n [] = some n
read_digits n (c ∷ s) =
    let rest = read_digits (n * 10 + (c - b'0')) s in
    if leb b'0' c && leb c b'9' then rest else none

abbrev pub ticks : Floats
ticks = record {
  F = ℕ;
  lt = ltb;
  le = leb;
  add = λ a b. a + b;
  sub = λ a b. a - b;
  mul = λ a b. a * b;
  div = λ a b. a / b;
  pow = λ a n. a ^ n;
  of_int = pos_part;
  parse = read_digits 0;
  is_zero = λ a. a == 0;
  is_negative = λ a. false;
}

pub ticks-IsOrder : IsOrder ticks
ticks-IsOrder = record { irrefl = λ a. ground arith; asymm = λ a b h. ground arith }

pub record World : Type 0 where
  pub clock : ℕ
  pub tries : ℕ
  pub sleeps : List (ℕ × ℕ)
  pub invalidations : ℕ

abbrev pub fresh : World
fresh = record { clock = 5; tries = 0; sleeps = []; invalidations = 0 }

abbrev pub policy : RetryPolicy ℕ
policy = record { initial_backoff = 1; max_backoff = 30; multiplier = 2; max_elapsed = 20 }

-- a sleep ends one tick late
abbrev pub hooks : Hooks World ℕ
hooks = record {
  sleep = λ d w. (ok tt, record w { clock = w.clock + d + 1; sleeps = (w.clock, d) ∷ w.sleeps });
  monotonic = λ w. (ok w.clock, w);
  jitter = λ w. (ok 1, w);
}
