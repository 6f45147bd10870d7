-- ===== src/Processor/Failures.antt =====
-- What deliveries and failures leave in the counters and in the log.
use asyncio_otlp_client.Base.{
  ℕ, suc, ◌+◌, ◌≡◌, some, List, [], ◌∷◌, ◌++◌, map, length, Exc, arith, ok, ◌∙◌, ap, sym, Str, ◌≢◌,
}
use asyncio_otlp_client.Base.Int.{ℤ, pos, negsuc, ◌-ℤ◌}
use asyncio_otlp_client.Signals.{SignalKind, metrics, logs, traces, profiles}
use asyncio_otlp_client.Outcomes.{all_accepted, some_rejected}
use asyncio_otlp_client.Processor.Defs.{
  Processor, Level, warning, debug, LogEntry, queue?, set_queue,
}
use asyncio_otlp_client.Processor.Flush.{
  exc_text, Exporter, dispatch, run_events, settle, settle_failed, settle_delivered,
  log_export_failure, flush_batch, flush_kind, flush,
}
use asyncio_otlp_client.Processor.Bounds.{queued}
use mathlib.Core.List.{append_assoc, append-nil}

-- A failed export: its signal, its batch and what it raised.
abbrev pub Failure : Type 0 → Type 0
Failure A = SignalKind × List A × Exc

abbrev pub entry : {A : Type 0} → Level → Failure A → LogEntry
entry level (kind, batch, exc) = record { level = level; kind = some kind; message = exc_text exc }

module _ {A : Type 0} where
  -- a run of failed exports, with no delivery in between
  abbrev pub outage : List (Failure A) → Processor A → Processor A
  outage [] p = p
  outage ((kind, batch, exc) ∷ fs) p = outage fs (settle_failed kind batch exc p)

  abbrev pub lost : List (Failure A) → ℕ
  lost [] = 0
  lost ((kind, batch, exc) ∷ fs) = length batch + lost fs

  fail_lem :
      (f : Failure A) (p : Processor A)
      → let p' = settle_failed f.0 f.1 f.2 p in
        (p'.consecutive_failures ≡ p.consecutive_failures + 1)
        × (p'.dropped ≡ p.dropped + length f.1)
        × (p'.exported ≡ p.exported)
        × (p'.last_error ≡ some (exc_text f.2))
  unfolding settle_failed log_export_failure
  fail_lem f p = ground arith

  first_log :
      (f : Failure A) (p : Processor A)
      → p.consecutive_failures ≡ 0
      → (settle_failed f.0 f.1 f.2 p).log ≡ p.log ++ (entry warning f ∷ [])
  unfolding settle_failed log_export_failure
  first_log f p h = ground arith

  later_log :
      (f : Failure A) (p : Processor A) (n : ℕ)
      → p.consecutive_failures ≡ n + 1
      → (settle_failed f.0 f.1 f.2 p).log ≡ p.log ++ (entry debug f ∷ [])
  unfolding settle_failed log_export_failure
  later_log f p n h = ground arith

  outage-log :
      (fs : List (Failure A)) (p : Processor A) (n : ℕ)
      → p.consecutive_failures ≡ n + 1
      → (outage fs p).log ≡ p.log ++ map (entry debug) fs
  outage-log [] p n h = sym (append-nil p.log)
  outage-log (f ∷ fs) p n h =
      outage-log fs (settle_failed f.0 f.1 f.2 p) (n + 1) (omega (arith, fail_lem f p))
      ∙ ap (λ (l : List LogEntry). l ++ map (entry debug) fs) (later_log f p n h)
      ∙ append_assoc p.log (entry debug f ∷ []) (map (entry debug) fs)

  outage-counts :
      (fs : List (Failure A)) (p : Processor A)
      → let p' = outage fs p in
        (p'.consecutive_failures ≡ p.consecutive_failures + length fs)
        × (p'.dropped ≡ p.dropped + lost fs)
        × (p'.exported ≡ p.exported)
  outage-counts [] p = omega arith
  outage-counts ((kind, batch, exc) ∷ fs) p =
      omega
        (arith, fail_lem (kind, batch, exc) p, outage-counts fs (settle_failed kind batch exc p))

  -- In a run of failures on a processor that counts none yet, the first one is logged as a warning
  -- and all later ones at debug level; each is counted, and every record of a failed batch is
  -- counted as dropped.
  pub outage_lem :
      (f : Failure A) (fs : List (Failure A)) (p : Processor A)
      → p.consecutive_failures ≡ 0
      → let p' = outage (f ∷ fs) p in
        (p'.log ≡ p.log ++ (entry warning f ∷ map (entry debug) fs))
        × (p'.consecutive_failures ≡ 1 + length fs)
        × (p'.dropped ≡ p.dropped + lost (f ∷ fs))
        × (p'.exported ≡ p.exported)
  outage_lem f fs p h =
      let counts = outage-counts (f ∷ fs) p in
      (
        outage-log fs (settle_failed f.0 f.1 f.2 p) 0 (omega (arith, fail_lem f p))
            ∙ ap (λ (l : List LogEntry). l ++ map (entry debug) fs) (first_log f p h)
            ∙ append_assoc p.log (entry warning f ∷ []) (map (entry debug) fs),
        omega (arith, counts.0),
        counts.1,
        counts.2,
      )

  -- A collector that reports a negative number of rejected records raises `exported` by more than
  -- the batch; one that reports the whole batch or more leaves it as it was.
  pub delivered-misreported :
      (batch : List A) (k : ℕ) (message : Str) (p : Processor A)
      → let report = λ (n : ℤ). some_rejected (record { rejected = n; message = message }) in
        ((settle_delivered batch (report (negsuc k)) p).exported
          ≡ p.exported + length batch + suc k)
        × ((settle_delivered batch (report (pos (length batch + k))) p).exported ≡ p.exported)
  unfolding settle_delivered ◌-ℤ◌
  delivered-misreported batch k message p = (ground arith, ground arith)

  -- Every call is answered at once by `Success`.
  abbrev pub AllAccept : Exporter A → Type 0
  AllAccept c =
      (kind : SignalKind) (batch : List A)
      → kind ≢ profiles
      → ((dispatch c kind batch).meanwhile ≡ [])
        × ((dispatch c kind batch).result ≡ ok all_accepted)

  accepted_batch :
      (c : Exporter A) (kind : SignalKind) (batch : List A) (p : Processor A)
      → AllAccept c
      → kind ≢ profiles
      → let (r, p') = flush_batch c kind batch p in
        (r ≡ ok tt)
        × (p'.exported ≡ p.exported + length batch)
        × (p'.dropped ≡ p.dropped)
        × (p'.metrics_queue ≡ p.metrics_queue)
        × (p'.logs_queue ≡ p.logs_queue)
        × (p'.traces_queue ≡ p.traces_queue)
  unfolding flush_batch run_events settle settle_delivered
  accepted_batch c kind [] p h ne = ground arith
  accepted_batch c kind (x ∷ xs) p h ne = let (quiet, done) = h kind (x ∷ xs) ne in ground arith

  -- If the collector accepts everything and no other task submits meanwhile, a flush exports every
  -- queued record, drops none and leaves the queues empty.
  pub flush-accepted :
      (c : Exporter A) (p : Processor A)
      → AllAccept c
      → let (r, p') = flush c p in
        (r ≡ ok tt)
        × (p'.exported ≡ p.exported + queued p)
        × (p'.dropped ≡ p.dropped)
        × (queued p' ≡ 0)
  unfolding flush flush_kind queue? set_queue
  flush-accepted c p h =
      let p₁ = (flush_batch c metrics p.metrics_queue (record p { metrics_queue = [] })).1 in
      let p₂ = (flush_batch c logs p₁.logs_queue (record p₁ { logs_queue = [] })).1 in
      ground (
        arith,
        accepted_batch c metrics p.metrics_queue (record p { metrics_queue = [] }) h (cc),
        accepted_batch c logs p₁.logs_queue (record p₁ { logs_queue = [] }) h (cc),
        accepted_batch c traces p₂.traces_queue (record p₂ { traces_queue = [] }) h (cc),
      )
