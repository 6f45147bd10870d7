-- ===== src/Tests/Retry.antt =====
-- Runs of `with_retry` and of `parse_retry_after`.
use asyncio_otlp_client.Base.{
  ℕ, ◌+◌, ◌-◌, ◌≡◌, ◌≢◌, refl, none, some, [], ◌∷◌, ltb, All, length, ok, stuck, if◌then◌else◌,
  arith,
}
use asyncio_otlp_client.Effects.{Eff}
use asyncio_otlp_client.Effects.Hoare.{Ensures}
use asyncio_otlp_client.Outcomes.{ExportOutcome, success, retryable, permanent}
use asyncio_otlp_client.Retry.Defs.{with_retry}
use asyncio_otlp_client.Retry.Budget.{IsRecorded, IsWithin, with_retry-InBudget}
use asyncio_otlp_client.Retry.Returns.{IsTimed, with_retry_returns}
use asyncio_otlp_client.Tests.Samples.{ticks, World, fresh, policy, hooks}

-- a collector that is overloaded for two attempts, and then accepts
abbrev op : Eff World (ExportOutcome ℕ)
op w = (
  ok (if ltb w.tries 2 then retryable (some 503) [] (some 4) else success),
  record w { tries = w.tries + 1 },
)

-- a collector that never answers
abbrev down : Eff World (ExportOutcome ℕ)
down w = (ok (retryable none [] none), record w { tries = w.tries + 1 })

abbrev left : ℕ → World → ℕ
left started w = started + 20 - w.clock

down-IsTimed : IsTimed ticks policy hooks down (λ w. w.clock) left
down-IsTimed = record {
  reads = λ w. refl;
  spent = λ started w h. ground arith;
  op_left = λ started w. omega arith;
  jitter_left = λ started w. (omega arith, refl);
  sleep_left = λ started delay w h. omega arith;
}

op-IsRecorded : IsRecorded ticks hooks op (λ w. w.clock) (λ w. w.tries) (λ w. w.sleeps)
op-IsRecorded = record {
  reads = λ w. refl;
  op_records = λ w. (refl, refl);
  jitter_records = λ w. (refl, refl, refl);
  sleep_records = λ d w. (refl, refl);
}

-- The collector recovers: two sleeps of four ticks.
with_retry-recovers : with_retry ticks policy hooks op 21 fresh ≡ (
  ok success,
  record { clock = 15; tries = 3; sleeps = (10, 4) ∷ (5, 4) ∷ []; invalidations = 0 },
)
unfolding with_retry
with_retry-recovers = refl

-- It does not: the backoff grows until the budget of 20 ticks is spent.
with_retry-gives_up : with_retry ticks policy hooks down 21 fresh ≡ (
  ok (retryable none [] none),
  record {
    clock = 24;
    tries = 5;
    sleeps = (15, 8) ∷ (10, 4) ∷ (7, 2) ∷ (5, 1) ∷ [];
    invalidations = 0;
  },
)
unfolding with_retry
with_retry-gives_up = refl

with_retry_returns_example : (with_retry ticks policy hooks down 21 fresh).0 ≢ stuck
with_retry_returns_example =
    with_retry_returns ticks policy hooks down (λ w. w.clock) left down-IsTimed 21 fresh
      (omega arith)

with_retry-InBudget_example :
    Ensures Unit
      (λ o w'. All (IsWithin ticks 5 20) w'.sleeps × (w'.tries ≡ 1 + length w'.sleeps))
      (λ e w'. All (IsWithin ticks 5 20) w'.sleeps)
      (with_retry ticks policy hooks op 21 fresh)
with_retry-InBudget_example =
    with_retry-InBudget ticks policy hooks op (λ w. w.clock) (λ w. w.tries) (λ w. w.sleeps)
      op-IsRecorded 21 fresh refl

-- a collector that rejects the data
abbrev refuse : Eff World (ExportOutcome ℕ)
refuse w = (ok (permanent (some 400) []), record w { tries = w.tries + 1 })
