-- ===== src/Retry/Budget.antt =====
-- When `with_retry` sleeps, and how often it tries.
use asyncio_otlp_client.Base.{
  ℕ, suc, ◌+◌, ◌≡◌, refl, false, ok, List, [], ◌∷◌, length, All, arith, Exc, Result, raised, stuck,
}
use asyncio_otlp_client.Effects.{Eff}
use asyncio_otlp_client.Effects.Hoare.{Post, Ensures, Ensures-weaken}
use asyncio_otlp_client.Floats.{Floats}
use asyncio_otlp_client.Outcomes.{ExportOutcome}
use asyncio_otlp_client.Retry.Defs.{RetryPolicy, Hooks, retry_loop, with_retry}
use asyncio_otlp_client.Retry.Loop.{RoundKeeps, round-Ensures, retry_loop-Ensures}

-- A world that records what it was asked: `tries` counts the attempts, `sleeps` has for each sleep the
-- time at which it was asked for and its length, and `clock` is what `monotonic` reads.
pub record IsRecorded (R : Floats) {W : Type 0} (hooks : Hooks W (R.F))
    (op : Eff W (ExportOutcome (R.F))) (clock : W → R.F) (tries : W → ℕ)
    (sleeps : W → List (R.F × R.F)) : Type 0 where
  pub reads : (w : W) → hooks.monotonic w ≡ (ok (clock w), w)
  pub op_records : (w : W) → (tries (op w).1 ≡ tries w + 1) × (sleeps (op w).1 ≡ sleeps w)
  pub jitter_records :
      (w : W)
      → (tries (hooks.jitter w).1 ≡ tries w)
        × (sleeps (hooks.jitter w).1 ≡ sleeps w)
        × (clock (hooks.jitter w).1 ≡ clock w)
  pub sleep_records :
      (d : R.F) (w : W)
      → (tries (hooks.sleep d w).1 ≡ tries w)
        × (sleeps (hooks.sleep d w).1 ≡ (clock w, d) ∷ sleeps w)

-- A sleep that is asked for at `now` since a start: the budget is not spent, and the sleep is not longer
-- than what is left of it, by the arithmetic of floats.
abbrev pub IsWithin : (R : Floats) → R.F → R.F → R.F × R.F → Type 0
IsWithin R started budget (now, delay) =
    (R.le budget (R.sub now started) ≡ false)
    × (R.lt (R.sub budget (R.sub now started)) delay ≡ false)

module _ (R : Floats) {W : Type 0} (policy : RetryPolicy (R.F)) (hooks : Hooks W (R.F))
    (op : Eff W (ExportOutcome (R.F))) (clock : W → R.F) (tries : W → ℕ)
    (sleeps : W → List (R.F × R.F)) (recorded : IsRecorded R hooks op clock tries sleeps) where
  open R use {F}

  abbrev InBudget : F → W → Type 0
  InBudget started w = All (IsWithin R started policy.max_elapsed) (sleeps w)

  -- Before an attempt there were as many attempts as sleeps; after it, one more.
  abbrev Before : F → ℕ → W → Type 0
  Before started n w = InBudget started w × (tries w ≡ n + length (sleeps w))

  abbrev After : F → ℕ → W → Type 0
  After started n w = InBudget started w × (tries w ≡ suc (n + length (sleeps w)))

  abbrev Stopped : F → Post W
  Stopped started e w = InBudget started w

  every :
      {A : Type 0} (Q : W → Type 0) (E : Post W) (r : Result A × W)
      → Q r.1
      → ((e : Exc) → Q r.1 → E e r.1)
      → Ensures Unit (λ a. Q) E r
  every Q E (ok a, w) h k = h
  every Q E (raised e, w) h k = k e h
  every Q E (stuck, w) h k = tt

  op-After : (started : F) (n : ℕ) (w : W) → Before started n w → After started n (op w).1
  op-After started n w h = let (t, k) = recorded.op_records w in rw (t, k) (h.0, omega (arith, h.1))

  jitter-After :
      (started now : F) (n : ℕ) (w : W)
      → After started n w × (now ≡ clock w)
      → After started n (hooks.jitter w).1 × (now ≡ clock (hooks.jitter w).1)
  jitter-After started now n w (h, e) =
      let (t, k, c) = recorded.jitter_records w in rw (t, k, c) (h, e)

  sleep-Before :
      (started now delay : F) (n : ℕ) (w : W)
      → After started n w × (now ≡ clock w)
      → R.le (policy.max_elapsed) (R.sub now started) ≡ false
      → R.lt (R.sub (policy.max_elapsed) (R.sub now started)) delay ≡ false
      → Before started n (hooks.sleep delay w).1
  sleep-Before started now delay n w (h, e) early short =
      let (t, k) = recorded.sleep_records delay w in
      rw (t, k) ((rw (← e) (early, short), h.0), omega (arith, h.1))

  budget_keeps :
      (started : F) (n : ℕ)
      → RoundKeeps R policy hooks op Unit
          (λ o. After started n)
          (Stopped started)
          started
          (Before started n)
          (Before started n)
          (λ o. After started n)
          (λ o now w. After started n w × (now ≡ clock w))
  budget_keeps started n = record {
    op_keeps = λ w h.
        every (After started n) (Stopped started) (op w) (op-After started n w h) (λ e q. q.0);
    done_ends = λ o w h. h;
    clock_keeps = λ o w h. rw (recorded.reads w) (h, refl);
    clocked_ends = λ o now w h. h.0;
    jitter_keeps = λ o now w h.
        every (λ w'. After started n w' × (now ≡ clock w')) (Stopped started) (hooks.jitter w)
          (jitter-After started now n w h) (λ e q. q.0.0);
    sleep_keeps = λ o now delay w h early short.
        every (Before started n) (Stopped started) (hooks.sleep delay w)
          (sleep-Before started now delay n w h early short) (λ e q. q.0);
  }

  budget_loop :
      (started : F) (n fuel attempt : ℕ) (w : W)
      → Before started n w
      → Ensures Unit
          (λ o. After started n)
          (Stopped started)
          (retry_loop R policy hooks op fuel started attempt w)
  budget_loop started n =
      retry_loop-Ensures R policy hooks op Unit (λ k. Before started n) (λ o. After started n)
        (Stopped started) started
        (λ k attempt w h.
          round-Ensures R policy hooks op Unit (λ o. After started n) (Stopped started) started
            (Before started n) (Before started n) (λ o. After started n)
            (λ o now w'. After started n w' × (now ≡ clock w')) (budget_keeps started n) attempt w
            h)
        (λ w h. tt)

  -- Every sleep that `with_retry` asks for is asked for before `max_elapsed` has passed since its start,
  -- and is not longer than what is left of it then, by the arithmetic of floats, also if it raises; and
  -- if it returns, it has made one attempt more than it has slept. The clock advances only in attempts
  -- and sleeps, which record what they are asked.
  pub with_retry-InBudget :
      (fuel : ℕ) (w : W)
      → sleeps w ≡ []
      → Ensures Unit
          (λ o w'.
            All (IsWithin R (clock w) policy.max_elapsed) (sleeps w')
            × (tries w' ≡ tries w + 1 + length (sleeps w')))
          (λ e w'. All (IsWithin R (clock w) policy.max_elapsed) (sleeps w'))
          (with_retry R policy hooks op fuel w)
  unfolding with_retry
  with_retry-InBudget fuel w none_yet = rw (recorded.reads w) (
      Ensures-weaken Unit (λ o. After (clock w) (tries w)) _ (Stopped (clock w)) _ _
        (λ o w' h. (h.0, omega (arith, h.1))) (λ e w' h. h)
        (budget_loop (clock w) (tries w) fuel 0 w (rw none_yet (tt, omega arith))))
