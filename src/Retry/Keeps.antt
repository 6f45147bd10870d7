-- ===== src/Retry/Keeps.antt =====
-- What every callable keeps, `with_retry` keeps, however it ends.
use asyncio_otlp_client.Base.{ℕ, zero, suc, ◌+◌, Option, none, some}
use asyncio_otlp_client.Effects.{Eff, pure}
use asyncio_otlp_client.Effects.Keeps.{Keeps, Keeps-bind, Keeps-if}
use asyncio_otlp_client.Floats.{Floats}
use asyncio_otlp_client.Outcomes.{ExportOutcome, success, partial_success, retryable, permanent}
use asyncio_otlp_client.Retry.Defs.{
  RetryPolicy, Round, finish, again, Hooks, next_delay, pause, back_off, after_op, round,
  after_round, retry_loop, with_retry,
}

module _ (R : Floats) {W : Type 0} (policy : RetryPolicy (R.F)) (hooks : Hooks W (R.F))
    (P : W → Type 0) (sleep_keeps : (d : R.F) → Keeps P (hooks.sleep d))
    (clock_keeps : Keeps P (hooks.monotonic)) (jitter_keeps : Keeps P (hooks.jitter)) where
  open R use {F, le, lt, sub}

  next_delay-Keeps :
      (attempt : ℕ) (hint : Option F) → Keeps P (next_delay R policy hooks attempt hint)
  unfolding next_delay
  next_delay-Keeps attempt (some d) = λ w p. p
  next_delay-Keeps attempt none = Keeps-bind P _ _ jitter_keeps (λ j w p. p)

  pause-Keeps :
      (elapsed : F) (o : ExportOutcome F) (d : F) → Keeps P (pause R policy hooks elapsed o d)
  unfolding pause
  pause-Keeps elapsed o d =
      Keeps-if P (lt (sub (policy.max_elapsed) elapsed) d) _ _ (λ w p. p)
        (Keeps-bind P (hooks.sleep d) (λ u. pure again) (sleep_keeps d) (λ u w p. p))

  after_op-Keeps :
      (started : F) (attempt : ℕ) (o : ExportOutcome F)
      → Keeps P (after_op R policy hooks started attempt o)
  unfolding after_op back_off
  after_op-Keeps started attempt success = λ w p. p
  after_op-Keeps started attempt (partial_success r) = λ w p. p
  after_op-Keeps started attempt (permanent s m) = λ w p. p
  after_op-Keeps started attempt (retryable s m hint) =
      let o : ExportOutcome F = retryable s m hint in
      Keeps-bind P (hooks.monotonic) (back_off R policy hooks started attempt o hint) clock_keeps
        λ now.
          Keeps-if P (le (policy.max_elapsed) (sub now started)) _ _ (λ w p. p)
            (Keeps-bind P (next_delay R policy hooks attempt hint)
              (pause R policy hooks (sub now started) o) (next_delay-Keeps attempt hint)
              (pause-Keeps (sub now started) o))

  module _ (op : Eff W (ExportOutcome F)) (op_keeps : Keeps P op) where
    after_round-Keeps :
        (r : Round F) (rest : Eff W (ExportOutcome F))
        → Keeps P rest
        → Keeps P (after_round R policy hooks op r rest)
    after_round-Keeps (finish o) rest h = λ w p. p
    after_round-Keeps again rest h = h

    retry_loop-Keeps :
        (fuel : ℕ) (started : F) (attempt : ℕ)
        → Keeps P (retry_loop R policy hooks op fuel started attempt)
    unfolding retry_loop
    retry_loop-Keeps zero started attempt = λ w p. p
    retry_loop-Keeps (suc fuel) started attempt =
        Keeps-bind P (round R policy hooks op started attempt)
          (λ r.
            after_round R policy hooks op r
              (retry_loop R policy hooks op fuel started (attempt + 1)))
          (Keeps-bind P op (after_op R policy hooks started attempt) op_keeps
            (after_op-Keeps started attempt))
          (λ r. after_round-Keeps r _ (retry_loop-Keeps fuel started (attempt + 1)))

    pub with_retry-Keeps : (fuel : ℕ) → Keeps P (with_retry R policy hooks op fuel)
    unfolding with_retry
    with_retry-Keeps fuel =
        Keeps-bind P (hooks.monotonic) (λ started. retry_loop R policy hooks op fuel started 0)
          clock_keeps (λ started. retry_loop-Keeps fuel started 0)
