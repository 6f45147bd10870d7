-- ===== src/Processor/Bounds.antt =====
-- `_submit` on a whole processor: the queue that it changes, the counters, the bound on all queues.
use asyncio_otlp_client.Base.{
  ℕ, ◌+◌, ◌-◌, ◌≤◌, ◌≡◌, ◌≢◌, true, false, ◌||◌, some, List, ◌++◌, leb, length, keep_last,
  length-keep_last, length-append, ok, arith, ap, ◌∙◌, min, inl, inr, Option-cases,
}
use asyncio_otlp_client.Signals.{SignalKind, metrics, logs, traces, profiles}
use asyncio_otlp_client.Processor.Defs.{
  Processor, Loop, submit_all, submit_to, start_loop, submit, queue?,
}
use asyncio_otlp_client.Processor.Submit.{submit_all-queue, submit_all-counts}

-- No queue is longer than `max_queue`.
pub record IsBounded {A : Type 0} (p : Processor A) : Type 0 where
  pub metrics_bound : length p.metrics_queue ≤ p.max_queue
  pub logs_bound : length p.logs_queue ≤ p.max_queue
  pub traces_bound : length p.traces_queue ≤ p.max_queue

module _ {A : Type 0} where
  abbrev pub queued : Processor A → ℕ
  queued p = length p.metrics_queue + length p.logs_queue + length p.traces_queue

  pub queue?-bound :
      (kind : SignalKind) (p : Processor A) (q : List A)
      → IsBounded p
      → queue? kind p ≡ some q
      → length q ≤ p.max_queue
  unfolding queue?
  queue?-bound metrics p q b e = ground arith
  queue?-bound logs p q b e = ground arith
  queue?-bound traces p q b e = ground arith
  queue?-bound profiles p q b e = cc

  submit_to-queue :
      (kind : SignalKind) (records q old : List A) (p : Processor A)
      → queue? kind p ≡ some old
      → length q ≤ p.max_queue
      → queue? kind (submit_to kind records q p).1 ≡ some (keep_last p.max_queue (q ++ records))
  unfolding submit_to queue?
  submit_to-queue metrics records q old p e h =
      ap some (submit_all-queue p.max_queue (start_loop q p) records h)
  submit_to-queue logs records q old p e h =
      ap some (submit_all-queue p.max_queue (start_loop q p) records h)
  submit_to-queue traces records q old p e h =
      ap some (submit_all-queue p.max_queue (start_loop q p) records h)
  submit_to-queue profiles records q old p e h = cc

  submit_to-others :
      (kind other : SignalKind) (records q : List A) (p : Processor A)
      → other ≢ kind
      → queue? other (submit_to kind records q p).1 ≡ queue? other p
  unfolding submit_to queue?
  submit_to-others kind other records q p ne = ground arith

  -- the length that `_submit` leaves a queue with
  loop_length :
      (n : ℕ) (q records : List A) (s : Loop A)
      → s.queue ≡ keep_last n (q ++ records)
      → length s.queue ≡ min n (length q + length records)
  loop_length n q records s e =
      ap length e ∙ omega (arith, length-keep_last n (q ++ records), length-append q records)

  submit_to-counts :
      (kind : SignalKind) (records q : List A) (p : Processor A)
      → length q ≤ p.max_queue
      → let (r, p') = submit_to kind records q p in
        (r ≡ ok (leb (length q + length records) p.max_queue))
        × (p'.submitted ≡ p.submitted + length records)
        × (p'.dropped ≡ p.dropped + (length q + length records - p.max_queue))
        × (p'.wake ≡ (p.wake || leb p.max_batch (min p.max_queue (length q + length records))))
  unfolding submit_to
  submit_to-counts kind records q p h =
      let s = submit_all p.max_queue (start_loop q p) records in
      ground (
        arith,
        submit_all-counts p.max_queue (start_loop q p) records h,
        loop_length p.max_queue q records s
            (submit_all-queue p.max_queue (start_loop q p) records h),
      )

  submit_open :
      (kind : SignalKind) (records q : List A) (p : Processor A)
      → p.closed ≡ false
      → queue? kind p ≡ some q
      → submit kind records p ≡ submit_to kind records q p
  unfolding submit
  submit_open kind records q p open_ e = simp (open_, e)

  pub submit_closed :
      (kind : SignalKind) (records : List A) (p : Processor A)
      → p.closed ≡ true
      → submit kind records p ≡ (ok false, p)
  unfolding submit
  submit_closed kind records p h = ground arith

  -- On an open processor a queue becomes its newest `max_queue` records and the others stay. The
  -- call returns whether every record fitted, counts each record as submitted and each one that is
  -- evicted as dropped, and wakes the loop if the queue is left with `max_batch` records or more.
  pub submit_lem :
      (kind other : SignalKind) (records q : List A) (p : Processor A)
      → p.closed ≡ false
      → queue? kind p ≡ some q
      → length q ≤ p.max_queue
      → let (r, p') = submit kind records p in
        let n = length q + length records in
        (r ≡ ok (leb n p.max_queue))
        × (queue? kind p' ≡ some (keep_last p.max_queue (q ++ records)))
        × (other ≢ kind → queue? other p' ≡ queue? other p)
        × (p'.submitted ≡ p.submitted + length records)
        × (p'.dropped ≡ p.dropped + (n - p.max_queue))
        × (p'.wake ≡ (p.wake || leb p.max_batch (min p.max_queue n)))
  submit_lem kind other records q p open_ e h =
      let counts = submit_to-counts kind records q p h in
      rw (submit_open kind records q p open_ e) (
        counts.0,
        submit_to-queue kind records q q p e h,
        submit_to-others kind other records q p,
        counts.1,
        counts.2,
        counts.3,
      )

  submit_to-IsBounded :
      (kind : SignalKind) (records q : List A) (p : Processor A)
      → IsBounded p
      → length q ≤ p.max_queue
      → IsBounded (submit_to kind records q p).1
  unfolding submit_to
  submit_to-IsBounded kind records q p b h = ground (
    arith,
    loop_length p.max_queue q records _ (submit_all-queue p.max_queue (start_loop q p) records h),
  )

  -- `_submit` keeps every queue within `max_queue`, whatever it returns.
  pub submit-IsBounded :
      (kind : SignalKind) (records : List A) (p : Processor A)
      → IsBounded p
      → IsBounded (submit kind records p).1
  unfolding submit
  submit-IsBounded kind records p b = elim (Option-cases (queue? kind p)) [
    | inl e ↦ rw e (ground arith)
    | inr (q, e) ↦
        rw e (ground (arith, submit_to-IsBounded kind records q p b (queue?-bound kind p q b e)))
  ]

  submit_to-balance :
      (kind : SignalKind) (records q : List A) (p : Processor A)
      → queue? kind p ≡ some q
      → length q ≤ p.max_queue
      → let p' = (submit_to kind records q p).1 in
        (p'.submitted + p.dropped + queued p ≡ p.submitted + p'.dropped + queued p')
        × (p'.exported ≡ p.exported)
  unfolding submit_to queue?
  submit_to-balance kind records q p e h =
      let s = submit_all p.max_queue (start_loop q p) records in
      ground (
        arith,
        submit_all-counts p.max_queue (start_loop q p) records h,
        loop_length p.max_queue q records s
            (submit_all-queue p.max_queue (start_loop q p) records h),
      )

  -- Every record that `_submit` counts as submitted is queued or counted as dropped.
  pub submit-balance :
      (kind : SignalKind) (records : List A) (p : Processor A)
      → IsBounded p
      → let p' = (submit kind records p).1 in
        (p'.submitted + p.dropped + queued p ≡ p.submitted + p'.dropped + queued p')
        × (p'.exported ≡ p.exported)
  unfolding submit
  submit-balance kind records p b = elim (Option-cases (queue? kind p)) [
    | inl e ↦ rw e (ground arith)
    | inr (q, e) ↦
        rw e (ground (arith, submit_to-balance kind records q p e (queue?-bound kind p q b e)))
  ]
