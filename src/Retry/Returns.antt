-- ===== src/Retry/Returns.antt =====
-- `with_retry` ends, and it ends at once unless the outcome is retryable.
use asyncio_otlp_client.Base.{
  ℕ, suc, ◌≤◌, ◌<◌, ◌≡◌, ◌≢◌, refl, true, false, ok, stuck, Result, raised, arith, ◌∙◌, sym, ap,
  Bool,
}
use asyncio_otlp_client.Effects.{Eff}
use asyncio_otlp_client.Effects.Hoare.{Post, Ensures, Ensures-weaken}
use asyncio_otlp_client.Floats.{Floats}
use asyncio_otlp_client.Outcomes.{ExportOutcome, success, partial_success, retryable, permanent}
use asyncio_otlp_client.Retry.Defs.{RetryPolicy, Hooks, retry_loop, with_retry}
use asyncio_otlp_client.Retry.Loop.{RoundKeeps, round-Ensures, retry_loop-Ensures}

abbrev pub any_exc : {W : Type 0} → Post W
any_exc e w = Unit

-- What makes the loop end. `clock` is what `monotonic` reads, and `left` bounds the sleeps that
-- begin before the budget is spent: a sleep lowers it, and no call raises it or hangs.
pub record IsTimed (R : Floats) {W : Type 0} (policy : RetryPolicy (R.F)) (hooks : Hooks W (R.F))
    (op : Eff W (ExportOutcome (R.F))) (clock : W → R.F) (left : R.F → W → ℕ) : Type 0 where
  pub reads : (w : W) → hooks.monotonic w ≡ (ok (clock w), w)
  pub spent :
      (started : R.F) (w : W)
      → left started w ≡ 0
      → R.le (policy.max_elapsed) (R.sub (clock w) started) ≡ true
  pub op_left :
      (started : R.F) (w : W) → Ensures ⊥ (λ o w'. left started w' ≤ left started w) any_exc (op w)
  pub jitter_left :
      (started : R.F) (w : W)
      → Ensures ⊥
          (λ j w'. (left started w' ≤ left started w) × (clock w' ≡ clock w))
          any_exc
          (hooks.jitter w)
  pub sleep_left :
      (started delay : R.F) (w : W)
      → 0 < left started w
      → Ensures ⊥ (λ u w'. left started w' < left started w) any_exc (hooks.sleep delay w)

Ensures-ne-stuck :
    {W A : Type 0} (r : Result A × W) → Ensures ⊥ (λ a w. Unit) any_exc r → r.0 ≢ stuck
Ensures-ne-stuck (ok a, w) h e = cc
Ensures-ne-stuck (raised x, w) h e = cc
Ensures-ne-stuck (stuck, w) h e = h

module _ (R : Floats) {W : Type 0} (policy : RetryPolicy (R.F)) (hooks : Hooks W (R.F))
    (op : Eff W (ExportOutcome (R.F))) (clock : W → R.F) (left : R.F → W → ℕ)
    (timed : IsTimed R policy hooks op clock left) where
  open R use {F}

  -- While the budget is not spent, a sleep is left.
  still_left :
      (started now : F) (w : W)
      → now ≡ clock w
      → R.le (policy.max_elapsed) (R.sub now started) ≡ false
      → 0 < left started w
  still_left started now w e early = ground (
    arith,
    e,
    timed.spent started w,
    ap (λ (t : F). R.le (policy.max_elapsed) (R.sub t started)) e,
  )

  round_keeps :
      (started : F) (n : ℕ)
      → RoundKeeps R policy hooks op ⊥
          (λ o w. Unit)
          any_exc
          started
          (λ w. left started w < suc n)
          (λ w. left started w < n)
          (λ o w. left started w ≤ n)
          (λ o now w. (left started w ≤ n) × (now ≡ clock w))
  round_keeps started n = record {
    op_keeps = λ w h.
        Ensures-weaken ⊥ _ _ any_exc any_exc (op w) (λ o w' l. omega arith) (λ e w' u. tt)
          (timed.op_left started w);
    done_ends = λ o w h. tt;
    clock_keeps = λ o w h. rw (timed.reads w) (h, refl);
    clocked_ends = λ o now w h. tt;
    jitter_keeps = λ o now w h.
        Ensures-weaken ⊥ _ _ any_exc any_exc (hooks.jitter w)
          (λ j w' l. (omega arith, h.1 ∙ sym (l.1))) (λ e w' u. tt) (timed.jitter_left started w);
    sleep_keeps = λ o now delay w h early short.
        Ensures-weaken ⊥ _ _ any_exc any_exc (hooks.sleep delay w) (λ u w' l. omega arith)
          (λ e w' u. tt) (timed.sleep_left started delay w (still_left started now w (h.1) early));
  }

  retry_loop-Returns :
      (started : F) (fuel attempt : ℕ) (w : W)
      → left started w < fuel
      → Ensures ⊥ (λ o w'. Unit) any_exc (retry_loop R policy hooks op fuel started attempt w)
  retry_loop-Returns started =
      retry_loop-Ensures R policy hooks op ⊥ (λ n w. left started w < n) (λ o w. Unit) any_exc
        started
        (λ n attempt w h.
          round-Ensures R policy hooks op ⊥ (λ o w'. Unit) any_exc started
            (λ w'. left started w' < suc n) (λ w'. left started w' < n)
            (λ o w'. left started w' ≤ n) (λ o now w'. (left started w' ≤ n) × (now ≡ clock w'))
            (round_keeps started n) attempt w h)
        (λ w h. omega arith)

  -- If every callable ends and a sleep brings the clock nearer to the end of the budget, fuel above
  -- the number of sleeps that are left makes `with_retry` return an outcome or raise; it never runs
  -- on.
  pub with_retry_returns :
      (fuel : ℕ) (w : W) → left (clock w) w < fuel → (with_retry R policy hooks op fuel w).0 ≢ stuck
  unfolding with_retry
  with_retry_returns fuel w h =
      rw (timed.reads w) (Ensures-ne-stuck _ (retry_loop-Returns (clock w) fuel 0 w h))

abbrev pub is_final : {F : Type 0} → ExportOutcome F → Bool
is_final (retryable s m r) = false
is_final _ = true

module _ (R : Floats) {W : Type 0} (policy : RetryPolicy (R.F)) (hooks : Hooks W (R.F))
    (op : Eff W (ExportOutcome (R.F))) where
  open R use {F}

  first_round :
      (fuel attempt : ℕ) (started : F) (o : ExportOutcome F) (w w' : W)
      → is_final o ≡ true
      → op w ≡ (ok o, w')
      → retry_loop R policy hooks op (suc fuel) started attempt w ≡ (ok o, w')
  unfolding retry_loop
  first_round fuel attempt started success w w' h e = rw e
  first_round fuel attempt started (partial_success p) w w' h e = rw e
  first_round fuel attempt started (permanent s m) w w' h e = rw e
  first_round fuel attempt started (retryable s m r) w w' h e = cc

  -- A success, a partial success or a permanent failure of the first attempt is returned as it is,
  -- in the world that the attempt left: nothing is slept and no clock is read after it.
  pub with_retry_first :
      (fuel : ℕ) (started : F) (o : ExportOutcome F) (w w₁ w₂ : W)
      → is_final o ≡ true
      → hooks.monotonic w ≡ (ok started, w₁)
      → op w₁ ≡ (ok o, w₂)
      → with_retry R policy hooks op (suc fuel) w ≡ (ok o, w₂)
  unfolding with_retry
  with_retry_first fuel started o w w₁ w₂ h clock e =
      rw clock (first_round fuel 0 started o w₁ w₂ h e)
