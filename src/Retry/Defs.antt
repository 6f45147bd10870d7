-- ===== src/Retry/Defs.antt =====
-- `RetryPolicy`, `parse_retry_after` and `with_retry`, over any world that the injected callables
-- act on: `op`, `sleep`, `monotonic` and `jitter` are parameters, as they are in the source.
use asyncio_otlp_client.Base.{
  ℕ, zero, suc, ◌+◌, ◌==◌, ◌||◌, Bool, Option, none, some, Str, is_empty, if◌then◌else◌,
}
use asyncio_otlp_client.Base.Int.{pos}
use asyncio_otlp_client.Effects.{Eff, pure, out_of_fuel, ◌>>=◌, ◌>>◌}
use asyncio_otlp_client.Floats.{Floats, min_of, max_of}
use asyncio_otlp_client.Outcomes.{ExportOutcome, retryable}

-- `status in RETRYABLE_STATUSES`
unfoldable pub is_retryable_status : ℕ → Bool
is_retryable_status s = s == 429 || s == 502 || s == 503 || s == 504

pub record RetryPolicy (F : Type 0) : Type 0 where
  pub initial_backoff : F
  pub max_backoff : F
  pub multiplier : F
  pub max_elapsed : F

module _ (R : Floats) where
  open R use {F, lt, le, sub, mul, pow, of_int, parse}

  -- `strip` is `str.strip`, and `parse_date` gives the timestamp of `parsedate_to_datetime`, with
  -- `none` for its exceptions.
  unfoldable pub parse_retry_after : (Str → Str) → (Str → Option F) → Str → F → Option F
  parse_retry_after strip parse_date value now_wall =
      let txt = strip value in
      if is_empty txt then none else elim (parse txt) [
        | some seconds ↦ some (max_of R (of_int (pos 0)) seconds)
        | none ↦ elim (parse_date txt) [
          | some when ↦ some (max_of R (of_int (pos 0)) (sub when now_wall))
          | none ↦ none
        ]
      ]

  -- `min(policy.max_backoff, policy.initial_backoff * policy.multiplier**attempt)`
  abbrev pub capped_backoff : RetryPolicy F → ℕ → F
  capped_backoff policy attempt =
      min_of R policy.max_backoff (mul policy.initial_backoff (pow policy.multiplier attempt))

-- How a round of the loop ends.
pub data Round (F : Type 0) : Type 0 where
  finish : ExportOutcome F → Round F
  again : Round F

-- The callables that `with_retry` is given.
pub record Hooks (W F : Type 0) : Type 0 where
  pub sleep : F → Eff W (Unit {0})
  pub monotonic : Eff W F
  pub jitter : Eff W F

module _ (R : Floats) {W : Type 0} (policy : RetryPolicy (R.F)) (hooks : Hooks W (R.F)) where
  open R use {F, lt, le, sub, mul}
  open hooks use {sleep, monotonic, jitter}

  -- the delay before the next attempt: the server's hint, or full jitter
  unfoldable pub next_delay : ℕ → Option F → Eff W F
  next_delay attempt (some seconds) = pure seconds
  next_delay attempt none = jitter >>= λ j. pure (mul j (capped_backoff R policy attempt))

  -- the end of the loop's body
  unfoldable pub pause : F → ExportOutcome F → F → Eff W (Round F)
  pause elapsed outcome delay =
      if lt (sub policy.max_elapsed elapsed) delay
      then pure (finish outcome)
      else (sleep delay >> pure again)

  -- the body of the loop once the clock is read after a retryable outcome
  unfoldable pub back_off : F → ℕ → ExportOutcome F → Option F → F → Eff W (Round F)
  unfolding next_delay pause
  back_off started attempt outcome hint now =
      let elapsed = sub now started in
      if le policy.max_elapsed elapsed
      then pure (finish outcome)
      else (next_delay attempt hint >>= pause elapsed outcome)

  unfoldable pub after_op : F → ℕ → ExportOutcome F → Eff W (Round F)
  unfolding back_off
  after_op started attempt (retryable status message hint) =
      monotonic >>= back_off started attempt (retryable status message hint) hint
  after_op started attempt outcome = pure (finish outcome)

  module _ (op : Eff W (ExportOutcome F)) where
    -- the body of `while True`
    unfoldable pub round : F → ℕ → Eff W (Round F)
    unfolding after_op
    round started attempt = op >>= after_op started attempt

    abbrev pub after_round : Round F → Eff W (ExportOutcome F) → Eff W (ExportOutcome F)
    after_round (finish outcome) rest = pure outcome
    after_round again rest = rest

    -- the loop, with fuel for its rounds
    unfoldable pub retry_loop : ℕ → F → ℕ → Eff W (ExportOutcome F)
    unfolding round
    retry_loop zero started attempt = out_of_fuel
    retry_loop (suc fuel) started attempt =
        let rest = retry_loop fuel started (attempt + 1) in
        round started attempt >>= λ r. after_round r rest

    unfoldable pub with_retry : ℕ → Eff W (ExportOutcome F)
    unfolding retry_loop
    with_retry fuel = monotonic >>= λ started. retry_loop fuel started 0
