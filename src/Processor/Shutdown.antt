-- ===== src/Processor/Shutdown.antt =====
-- `flush` on a closed processor, and `__aexit__`.
use asyncio_otlp_client.Base.{
  ℕ, ◌+◌, ◌≡◌, refl, true, Option, none, some, List, [], ◌∷◌, ◌⊎◌, cancelled, Result, ok, raised,
  arith, subst, sym,
}
use asyncio_otlp_client.Signals.{SignalKind, metrics, logs, traces, profiles}
use asyncio_otlp_client.Outcomes.{Accepted}
use asyncio_otlp_client.Processor.Defs.{Processor, queue?, set_queue}
use asyncio_otlp_client.Processor.Flush.{
  Event, submitting, closing, Exporter, run_events, dispatch, settle_raised, settle, flush_batch,
  flush_kind, flush, cancel_task, aexit,
}
use asyncio_otlp_client.Processor.Bounds.{queued, submit_closed}
use asyncio_otlp_client.Processor.System.{
  Phase, idle, awaiting, closes, is_cancelled, Reach, here, then_, Reach-trans,
}
use asyncio_otlp_client.Processor.Balance.{IsAccounted, Reach-IsAccounted}
use asyncio_otlp_client.Processor.Paths.{IsReliable, IsSoundResult, flush-Reach}

-- The end of a flush that the caller sees.
abbrev pub IsQuiet : Result (Unit {0}) → Type 0
IsQuiet r = (r ≡ ok tt) ⊎ (r ≡ raised cancelled)

module _ {A : Type 0} where
  -- `p'` is closed and holds the same queues as `p`.
  record SameQueues (p p' : Processor A) : Type 0 where
    closed_after : p'.closed ≡ true
    same_metrics : p'.metrics_queue ≡ p.metrics_queue
    same_logs : p'.logs_queue ≡ p.logs_queue
    same_traces : p'.traces_queue ≡ p.traces_queue

  -- A closed processor takes nothing from other tasks.
  run_events-closed :
      (es : List (Event A)) (p : Processor A) → p.closed ≡ true → SameQueues p (run_events es p)
  unfolding run_events
  run_events-closed [] p h = ground arith
  run_events-closed (submitting kind records ∷ es) p h =
      subst (λ r. SameQueues p (run_events es r.1)) (sym (submit_closed kind records p h))
        (run_events-closed es p h)
  run_events-closed (closing ∷ es) p h =
      ground (arith, run_events-closed es (record p { closed = true }) refl)

  settle-SameQueues :
      (kind : SignalKind) (batch : List A) (r : Result Accepted) (p : Processor A)
      → p.closed ≡ true
      → SameQueues p (settle kind batch r p).1
  unfolding settle settle_raised
  settle-SameQueues kind batch r p h = ground arith

  flush_batch-SameQueues :
      (c : Exporter A) (kind : SignalKind) (batch : List A) (p : Processor A)
      → p.closed ≡ true
      → SameQueues p (flush_batch c kind batch p).1
  unfolding flush_batch
  flush_batch-SameQueues c kind [] p h = ground arith
  flush_batch-SameQueues c kind (x ∷ xs) p h =
      let reply = dispatch c kind (x ∷ xs) in
      ground (
        arith,
        run_events-closed reply.meanwhile p h,
        settle-SameQueues kind (x ∷ xs) reply.result (run_events reply.meanwhile p),
      )

  -- A round empties its queue for good, and touches no other.
  flush_kind-SameQueues :
      (c : Exporter A) (kind : SignalKind) (p : Processor A)
      → p.closed ≡ true
      → SameQueues (set_queue kind [] p) (flush_kind c kind p).1
  unfolding flush_kind set_queue queue?
  flush_kind-SameQueues c metrics p h = flush_batch-SameQueues c metrics _ _ h
  flush_kind-SameQueues c logs p h = flush_batch-SameQueues c logs _ _ h
  flush_kind-SameQueues c traces p h = flush_batch-SameQueues c traces _ _ h
  flush_kind-SameQueues c profiles p h = ground arith

  -- How a flush of a closed processor ends: with empty queues, or by a cancellation.
  record Flushed (r : Result (Unit {0})) (p' : Processor A) : Type 0 where
    still_closed : p'.closed ≡ true
    emptied : r ≡ ok tt → queued p' ≡ 0

  flush-Flushed :
      (c : Exporter A) (p : Processor A) → p.closed ≡ true → Flushed (flush c p).0 (flush c p).1
  unfolding flush set_queue
  flush-Flushed c p h = ground (
    arith,
    flush_kind-SameQueues c metrics p h,
    flush_kind-SameQueues c logs (flush_kind c metrics p).1,
    flush_kind-SameQueues c traces (flush_kind c logs (flush_kind c metrics p).1).1,
  )

  settle-IsQuiet :
      (kind : SignalKind) (batch : List A) (r : Result Accepted) (p : Processor A)
      → IsSoundResult r
      → IsQuiet (settle kind batch r p).0
  unfolding settle settle_raised
  settle-IsQuiet kind batch r p h = ground arith

  flush_kind-IsQuiet :
      (c : Exporter A) (kind : SignalKind) (p : Processor A)
      → IsReliable c
      → IsQuiet (flush_kind c kind p).0
  unfolding flush_kind flush_batch queue?
  flush_kind-IsQuiet c kind p h = grind (arith, settle-IsQuiet, h)

  -- With a client whose calls end in sound replies, `flush` never raises but for a cancellation.
  pub flush-IsQuiet : (c : Exporter A) (p : Processor A) → IsReliable c → IsQuiet (flush c p).0
  unfolding flush
  flush-IsQuiet c p h = ground (
    arith,
    flush_kind-IsQuiet c metrics p h,
    flush_kind-IsQuiet c logs (flush_kind c metrics p).1 h,
    flush_kind-IsQuiet c traces (flush_kind c logs (flush_kind c metrics p).1).1 h,
  )

  -- The phase of the background task when `__aexit__` cancels it.
  abbrev pub interrupted : Option (SignalKind × List A) → Phase A
  interrupted none = idle
  interrupted (some (kind, batch)) = awaiting kind batch []

  aexit-Reach :
      (c : Exporter A) (in_flight : Option (SignalKind × List A)) (p : Processor A) (n : ℕ)
      → IsReliable c
      → (m : ℕ) × Reach
          (record { proc = p; phase = interrupted in_flight; refused = n; overcounted = 0 })
          (record { proc = (aexit c in_flight p).1; phase = idle; refused = m; overcounted = 0 })
  unfolding aexit
  aexit-Reach c none p n h =
      let (m, path) = flush-Reach c (record p { closed = true }) n h in
      (m, Reach-trans (then_ here (closes refl)) path)
  aexit-Reach c (some (kind, batch)) p n h =
      let (m, path) =
        flush-Reach c (settle kind batch (raised cancelled) (record p { closed = true })).1 n h in
      (
        m,
        Reach-trans (then_ (then_ here (closes refl)) (is_cancelled kind batch [] refl refl)) path,
      )

  cancel_task-closed :
      (in_flight : Option (SignalKind × List A)) (p : Processor A)
      → p.closed ≡ true
      → (cancel_task in_flight p).closed ≡ true
  unfolding cancel_task
  cancel_task-closed none p h = h
  cancel_task-closed (some (kind, batch)) p h =
      (settle-SameQueues kind batch (raised cancelled) p h).closed_after

  -- With a client whose calls end in sound replies, `__aexit__` raises nothing but a cancellation
  -- and leaves the processor closed. It is a sequence of the system's steps from the point where
  -- the background task was interrupted, so every record stays accounted for; and if it returns,
  -- the queues are empty and each submitted record was exported, dropped or refused.
  pub aexit_lem :
      (c : Exporter A) (in_flight : Option (SignalKind × List A)) (p : Processor A) (n : ℕ)
      → IsReliable c
      → IsAccounted
          (record { proc = p; phase = interrupted in_flight; refused = n; overcounted = 0 })
      → let (r, p') = aexit c in_flight p in
        IsQuiet r
        × (p'.closed ≡ true)
        × ((m : ℕ) × Reach
              (record { proc = p; phase = interrupted in_flight; refused = n; overcounted = 0 })
              (record { proc = p'; phase = idle; refused = m; overcounted = 0 })
            × (p'.submitted ≡ p'.exported + p'.dropped + m + queued p')
            × (r ≡ ok tt → queued p' ≡ 0))
  unfolding aexit
  aexit_lem c in_flight p n h v =
      let (m, path) = aexit-Reach c in_flight p n h in
      let p₁ = cancel_task in_flight (record p { closed = true }) in
      let done =
        flush-Flushed c p₁ (cancel_task-closed in_flight (record p { closed = true }) refl) in
      (
        flush-IsQuiet c p₁ h,
        done.still_closed,
        (m, path, omega (arith, (Reach-IsAccounted v path).balance), done.emptied),
      )
