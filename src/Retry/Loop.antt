-- ===== src/Retry/Loop.antt =====
-- A rule for the loop of `with_retry`: what each callable keeps, the loop keeps.
use asyncio_otlp_client.Base.{
  ℕ, zero, suc, ◌+◌, ◌≡◌, Option, none, some, false, Bool-cases, inl, inr,
}
use asyncio_otlp_client.Effects.{Eff, pure}
use asyncio_otlp_client.Effects.Hoare.{Post, Ensures, Ensures-bind}
use asyncio_otlp_client.Floats.{Floats}
use asyncio_otlp_client.Outcomes.{ExportOutcome, success, partial_success, retryable, permanent}
use asyncio_otlp_client.Retry.Defs.{
  RetryPolicy, Round, finish, again, Hooks, capped_backoff, next_delay, pause, back_off, after_op,
  round, after_round, retry_loop,
}

-- After a round: the outcome that it returns meets `Q`, or the next round may begin.
abbrev pub AfterRound :
    {W F : Type 0} → (ExportOutcome F → W → Type 0) → (W → Type 0) → Round F → W → Type 0
AfterRound Q next (finish outcome) w = Q outcome w
AfterRound Q next again w = next w

module _ (R : Floats) {W : Type 0} (policy : RetryPolicy (R.F)) (hooks : Hooks W (R.F))
    (op : Eff W (ExportOutcome (R.F))) (S : Type 0) (Ready : ℕ → W → Type 0)
    (Q : ExportOutcome (R.F) → W → Type 0) (E : Post W) where
  open R use {F}

  after_round-Ensures :
      (r : Round F) (rest : Eff W (ExportOutcome F)) (n : ℕ) (w : W)
      → AfterRound Q (Ready n) r w
      → (Ready n w → Ensures S Q E (rest w))
      → Ensures S Q E (after_round R policy hooks op r rest w)
  after_round-Ensures (finish outcome) rest n w h go = h
  after_round-Ensures again rest n w h go = go h

  pub retry_loop-Ensures :
      (started : F)
      → ((n attempt : ℕ) (w : W)
          → Ready (suc n) w
          → Ensures S (AfterRound Q (Ready n)) E (round R policy hooks op started attempt w))
      → ((w : W) → Ready zero w → S)
      → (fuel attempt : ℕ) (w : W) → Ready fuel w
      → Ensures S Q E (retry_loop R policy hooks op fuel started attempt w)
  unfolding retry_loop
  retry_loop-Ensures started body empty zero attempt w h = empty w h
  retry_loop-Ensures started body empty (suc fuel) attempt w h =
      Ensures-bind S (AfterRound Q (Ready fuel)) Q E (round R policy hooks op started attempt)
        (λ r.
          after_round R policy hooks op r (retry_loop R policy hooks op fuel started (attempt + 1)))
        w (body fuel attempt w h)
        (λ r w' h'.
          after_round-Ensures r (retry_loop R policy hooks op fuel started (attempt + 1)) fuel w' h'
            (retry_loop-Ensures started body empty fuel (attempt + 1) w'))

-- What a round needs of the callables. `ready` holds before the attempt and `next` before the
-- following one; `Done` holds after the attempt, and `Clocked` once the clock was read too. A sleep
-- is only asked for inside the budget.
pub record RoundKeeps (R : Floats) {W : Type 0} (policy : RetryPolicy (R.F)) (hooks : Hooks W (R.F))
    (op : Eff W (ExportOutcome (R.F))) (S : Type 0) (Q : ExportOutcome (R.F) → W → Type 0)
    (E : Post W) (started : R.F) (ready next : W → Type 0) (Done : ExportOutcome (R.F) → W → Type 0)
    (Clocked : ExportOutcome (R.F) → R.F → W → Type 0) : Type 0 where
  pub op_keeps : (w : W) → ready w → Ensures S Done E (op w)
  pub done_ends : (o : ExportOutcome (R.F)) (w : W) → Done o w → Q o w
  pub clock_keeps :
      (o : ExportOutcome (R.F)) (w : W) → Done o w → Ensures S (Clocked o) E (hooks.monotonic w)
  pub clocked_ends : (o : ExportOutcome (R.F)) (now : R.F) (w : W) → Clocked o now w → Q o w
  pub jitter_keeps :
      (o : ExportOutcome (R.F)) (now : R.F) (w : W)
      → Clocked o now w
      → Ensures S (λ j. Clocked o now) E (hooks.jitter w)
  pub sleep_keeps :
      (o : ExportOutcome (R.F)) (now delay : R.F) (w : W)
      → Clocked o now w
      → R.le (policy.max_elapsed) (R.sub now started) ≡ false
      → R.lt (R.sub (policy.max_elapsed) (R.sub now started)) delay ≡ false
      → Ensures S (λ u. next) E (hooks.sleep delay w)

module _ (R : Floats) {W : Type 0} (policy : RetryPolicy (R.F)) (hooks : Hooks W (R.F))
    (op : Eff W (ExportOutcome (R.F))) (S : Type 0) (Q : ExportOutcome (R.F) → W → Type 0)
    (E : Post W) (started : R.F) (ready next : W → Type 0) (Done : ExportOutcome (R.F) → W → Type 0)
    (Clocked : ExportOutcome (R.F) → R.F → W → Type 0)
    (keeps : RoundKeeps R policy hooks op S Q E started ready next Done Clocked) where
  open R use {F, le, lt, sub}

  pause-Ensures :
      (o : ExportOutcome F) (now delay : F) (w : W)
      → Clocked o now w
      → le (policy.max_elapsed) (sub now started) ≡ false
      → Ensures S (AfterRound Q next) E (pause R policy hooks (sub now started) o delay w)
  unfolding pause
  pause-Ensures o now delay w c early =
      elim (Bool-cases (lt (sub (policy.max_elapsed) (sub now started)) delay)) [
        | inl long ↦ rw long (keeps.clocked_ends o now w c)
        | inr short ↦ rw short (
            Ensures-bind S (λ u. next) (AfterRound Q next) E (hooks.sleep delay) (λ u. pure again) w
              (keeps.sleep_keeps o now delay w c early short) (λ u w' h. h))
      ]

  delay-Ensures :
      (o : ExportOutcome F) (now : F) (attempt : ℕ) (hint : Option F) (w : W)
      → Clocked o now w
      → Ensures S (λ d. Clocked o now) E (next_delay R policy hooks attempt hint w)
  unfolding next_delay
  delay-Ensures o now attempt (some d) w c = c
  delay-Ensures o now attempt none w c =
      Ensures-bind S (λ j. Clocked o now) (λ d. Clocked o now) E (hooks.jitter)
        (λ j. pure (R.mul j (capped_backoff R policy attempt))) w (keeps.jitter_keeps o now w c)
        (λ j w' h. h)

  back_off-Ensures :
      (attempt : ℕ) (o : ExportOutcome F) (hint : Option F) (now : F) (w : W)
      → Clocked o now w
      → Ensures S (AfterRound Q next) E (back_off R policy hooks started attempt o hint now w)
  unfolding back_off
  back_off-Ensures attempt o hint now w c =
      elim (Bool-cases (le (policy.max_elapsed) (sub now started))) [
        | inl late ↦ rw late (keeps.clocked_ends o now w c)
        | inr early ↦ rw early (
            Ensures-bind S (λ d. Clocked o now) (AfterRound Q next) E
              (next_delay R policy hooks attempt hint) (pause R policy hooks (sub now started) o) w
              (delay-Ensures o now attempt hint w c) (λ d w' h. pause-Ensures o now d w' h early))
      ]

  after_op-Ensures :
      (attempt : ℕ) (o : ExportOutcome F) (w : W)
      → Done o w
      → Ensures S (AfterRound Q next) E (after_op R policy hooks started attempt o w)
  unfolding after_op
  after_op-Ensures attempt success w d = keeps.done_ends success w d
  after_op-Ensures attempt (partial_success p) w d = keeps.done_ends (partial_success p) w d
  after_op-Ensures attempt (permanent s m) w d = keeps.done_ends (permanent s m) w d
  after_op-Ensures attempt (retryable s m hint) w d =
      let o : ExportOutcome F = retryable s m hint in
      Ensures-bind S (Clocked o) (AfterRound Q next) E (hooks.monotonic)
        (back_off R policy hooks started attempt o hint) w (keeps.clock_keeps o w d)
        (back_off-Ensures attempt o hint)

  pub round-Ensures :
      (attempt : ℕ) (w : W)
      → ready w
      → Ensures S (AfterRound Q next) E (round R policy hooks op started attempt w)
  unfolding round
  round-Ensures attempt w h =
      Ensures-bind S Done (AfterRound Q next) E op (after_op R policy hooks started attempt) w
        (keeps.op_keeps w h) (after_op-Ensures attempt)
