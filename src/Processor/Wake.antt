-- ===== src/Processor/Wake.antt =====
-- The event that wakes the background task of BatchProcessor: a full batch does not wait for the interval.
use asyncio_otlp_client.Base.{
  ℕ, ◌≤◌, ◌≡◌, refl, ap, sym, subst, Bool, true, false, some, List, [], ◌∷◌, length, leb, cancelled,
  Result, ok, raised, stuck, arith, inl, inr,
}
use asyncio_otlp_client.Signals.{SignalKind, metrics, logs, traces, profiles}
use asyncio_otlp_client.Outcomes.{Accepted}
use asyncio_otlp_client.Processor.Defs.{
  Processor, new_processor, queue?, set_queue, submit, submit_to,
}
use asyncio_otlp_client.Processor.Flush.{
  Event, submitting, closing, Exporter, run_event, run_events, dispatch, log_export_failure,
  settle_failed, settle_delivered, settle_raised, settle, flush_batch, flush_kind, and_then, flush,
  run_caught, run_settle, run_round,
}
use asyncio_otlp_client.Processor.Paths.{IsReliable}
use asyncio_otlp_client.Processor.Shutdown.{IsQuiet, flush-IsQuiet}

module _ {A : Type 0} where
  -- a signal's queue has enough for a batch
  unfoldable pub has_batch : SignalKind → Processor A → Bool
  unfolding queue?
  has_batch metrics p = leb p.max_batch (length p.metrics_queue)
  has_batch logs p = leb p.max_batch (length p.logs_queue)
  has_batch traces p = leb p.max_batch (length p.traces_queue)
  has_batch profiles p = false

  module _ (n : ℕ) (positive : 1 ≤ n) where
    -- The batch size is `n`, and where a signal's queue has a batch the event is set.
    abbrev Awake : SignalKind → Processor A → Type 0
    Awake kind p = (p.max_batch ≡ n) × (has_batch kind p ≡ true → p.wake ≡ true)

    submit-Awake :
        (k j : SignalKind) (records : List A) (p : Processor A)
        → Awake k p
        → Awake k (submit j records p).1
    unfolding has_batch submit submit_to queue? set_queue
    submit-Awake metrics metrics records p h = ground arith
    submit-Awake metrics logs records p h = ground arith
    submit-Awake metrics traces records p h = ground arith
    submit-Awake logs metrics records p h = ground arith
    submit-Awake logs logs records p h = ground arith
    submit-Awake logs traces records p h = ground arith
    submit-Awake traces metrics records p h = ground arith
    submit-Awake traces logs records p h = ground arith
    submit-Awake traces traces records p h = ground arith
    submit-Awake k profiles records p h = ground arith
    submit-Awake profiles j records p h = ground arith

    run_events-Awake :
        (k : SignalKind) (es : List (Event A)) (p : Processor A)
        → Awake k p
        → Awake k (run_events es p)
    unfolding run_events run_event has_batch queue?
    run_events-Awake k [] p h = h
    run_events-Awake k (submitting j records ∷ es) p h =
        run_events-Awake k es (submit j records p).1 (submit-Awake k j records p h)
    run_events-Awake metrics (closing ∷ es) p h = run_events-Awake metrics es _ h
    run_events-Awake logs (closing ∷ es) p h = run_events-Awake logs es _ h
    run_events-Awake traces (closing ∷ es) p h = run_events-Awake traces es _ h
    run_events-Awake profiles (closing ∷ es) p h = run_events-Awake profiles es _ h

    settle-Awake :
        (k j : SignalKind) (batch : List A) (r : Result Accepted) (p : Processor A)
        → Awake k p
        → Awake k (settle j batch r p).1
    unfolding settle settle_raised settle_failed settle_delivered log_export_failure has_batch
        queue?
    settle-Awake metrics j batch r p h = ground arith
    settle-Awake logs j batch r p h = ground arith
    settle-Awake traces j batch r p h = ground arith
    settle-Awake profiles j batch r p h = ground arith

    flush_batch-Awake :
        (k j : SignalKind) (c : Exporter A) (batch : List A) (p : Processor A)
        → Awake k p
        → Awake k (flush_batch c j batch p).1
    unfolding flush_batch
    flush_batch-Awake k j c [] p h = h
    flush_batch-Awake k j c (x ∷ xs) p h =
        settle-Awake k j (x ∷ xs) (dispatch c j (x ∷ xs)).result _
          (run_events-Awake k (dispatch c j (x ∷ xs)).meanwhile p h)

    -- A queue that was taken has no batch.
    taken-Awake : (k : SignalKind) (p : Processor A) → p.max_batch ≡ n → Awake k (set_queue k [] p)
    unfolding has_batch set_queue
    taken-Awake metrics p h = ground arith
    taken-Awake logs p h = ground arith
    taken-Awake traces p h = ground arith
    taken-Awake profiles p h = ground arith

    other-Awake : (k j : SignalKind) (p : Processor A) → Awake k p → Awake k (set_queue j [] p)
    unfolding has_batch set_queue
    other-Awake k metrics p h = ground arith
    other-Awake k logs p h = ground arith
    other-Awake k traces p h = ground arith
    other-Awake k profiles p h = h

    -- The round of a signal leaves what holds of the others, and makes it hold of its own.
    flush_kind-Awake :
        (k j : SignalKind) (c : Exporter A) (p : Processor A)
        → Awake k p
        → Awake k (flush_kind c j p).1
    unfolding flush_kind queue?
    flush_kind-Awake k metrics c p h = flush_batch-Awake k metrics c _ _ (other-Awake k metrics p h)
    flush_kind-Awake k logs c p h = flush_batch-Awake k logs c _ _ (other-Awake k logs p h)
    flush_kind-Awake k traces c p h = flush_batch-Awake k traces c _ _ (other-Awake k traces p h)
    flush_kind-Awake k profiles c p h = h

    own-Awake :
        (k : SignalKind) (c : Exporter A) (p : Processor A)
        → p.max_batch ≡ n
        → Awake k (flush_kind c k p).1
    unfolding flush_kind queue? has_batch
    own-Awake metrics c p h = flush_batch-Awake metrics metrics c _ _ (taken-Awake metrics p h)
    own-Awake logs c p h = flush_batch-Awake logs logs c _ _ (taken-Awake logs p h)
    own-Awake traces c p h = flush_batch-Awake traces traces c _ _ (taken-Awake traces p h)
    own-Awake profiles c p h = ground arith

    and_then-keeps :
        (P Q : Processor A → Type 0) (m : Result (Unit {0}) × Processor A)
        (next : Processor A → Result (Unit {0}) × Processor A)
        → P m.1
        → ((q : Processor A) → P q → Q q)
        → ((q : Processor A) → P q → Q (next q).1)
        → Q (and_then m next).1
    and_then-keeps P Q (ok u, p) next h stop go = go p h
    and_then-keeps P Q (raised e, p) next h stop go = stop p h
    and_then-keeps P Q (stuck, p) next h stop go = stop p h

    and_then-ends :
        (P Q : Processor A → Type 0) (m : Result (Unit {0}) × Processor A)
        (next : Processor A → Result (Unit {0}) × Processor A)
        → (and_then m next).0 ≡ ok tt
        → P m.1
        → ((q : Processor A) → P q → (next q).0 ≡ ok tt → Q (next q).1)
        → Q (and_then m next).1
    and_then-ends P Q (ok u, p) next e h go = go p h e
    and_then-ends P Q (raised x, p) next e h go = cc
    and_then-ends P Q (stuck, p) next e h go = cc

    abbrev last_kind : Exporter A → Processor A → Result (Unit {0}) × Processor A
    last_kind c q = flush_kind c traces q

    abbrev last_kinds : Exporter A → Processor A → Result (Unit {0}) × Processor A
    last_kinds c q = and_then (flush_kind c logs q) (last_kind c)

    -- A flush keeps what holds of a signal, however it ends.
    flush-Awake :
        (k : SignalKind) (c : Exporter A) (p : Processor A) → Awake k p → Awake k (flush c p).1
    unfolding flush
    flush-Awake k c p h =
        and_then-keeps (Awake k) (Awake k) (flush_kind c metrics p) (last_kinds c)
          (flush_kind-Awake k metrics c p h) (λ q a. a)
          (λ q a.
            and_then-keeps (Awake k) (Awake k) (flush_kind c logs q) (last_kind c)
              (flush_kind-Awake k logs c q a) (λ r b. b) (λ r b. flush_kind-Awake k traces c r b))

    abbrev AllAwake : Processor A → Type 0
    AllAwake p = Awake metrics p × Awake logs p × Awake traces p

    -- A flush that is not cancelled makes it hold of all.
    flush-AllAwake :
        (c : Exporter A) (p : Processor A)
        → p.max_batch ≡ n
        → (flush c p).0 ≡ ok tt
        → AllAwake (flush c p).1
    unfolding flush
    flush-AllAwake c p h e =
        and_then-ends (Awake metrics) AllAwake (flush_kind c metrics p) (last_kinds c) e
          (own-Awake metrics c p h)
          (λ q a e'.
            and_then-ends (λ r. Awake metrics r × Awake logs r) AllAwake (flush_kind c logs q)
              (last_kind c) e' (flush_kind-Awake metrics logs c q a, own-Awake logs c q a.0)
              (λ r b e''. (
                flush_kind-Awake metrics traces c r b.0,
                flush_kind-Awake logs traces c r b.1,
                own-Awake traces c r b.0.0,
              )))

    run_settle-AllAwake :
        (r : Result (Unit {0})) (p : Processor A)
        → IsQuiet r
        → (run_settle (r, p)).0 ≡ ok tt
        → (r ≡ ok tt → AllAwake p)
        → AllAwake (run_settle (r, p)).1
    unfolding run_settle run_caught has_batch queue?
    run_settle-AllAwake (ok u) p quiet e h = h refl
    run_settle-AllAwake (raised x) p (inl q) e h = cc
    run_settle-AllAwake (raised cancelled) p (inr q) e h = cc
    run_settle-AllAwake (raised x) p (inr q) e h = cc
    run_settle-AllAwake stuck p quiet e h = cc

    round-AllAwake :
        (c : Exporter A) (p : Processor A)
        → IsReliable c
        → p.max_batch ≡ n
        → (run_round c p).0 ≡ ok tt
        → AllAwake (run_round c p).1
    unfolding run_round
    round-AllAwake c p reliable h e =
        let q = record p { wake = false; flushed = false } in
        run_settle-AllAwake (flush c q).0 (flush c q).1 (flush-IsQuiet c q reliable) e
          (flush-AllAwake c q h)

  -- A processor while its background task waits for the event or the interval: as it starts, after what
  -- other tasks do (flushes of their own among it), and after a round of the background task.
  pub data Waiting (max_batch max_queue : ℕ) : Processor A → Type 0 where
    starts : Waiting max_batch max_queue (new_processor max_batch max_queue)
    submits :
        (kind : SignalKind) (records : List A) {p p' : Processor A}
        → Waiting max_batch max_queue p
        → p' ≡ (submit kind records p).1
        → Waiting max_batch max_queue p'
    closes :
        {p : Processor A}
        → Waiting max_batch max_queue p
        → Waiting max_batch max_queue (record p { closed = true })
    flushes :
        (c : Exporter A) {p p' : Processor A}
        → Waiting max_batch max_queue p
        → p' ≡ (flush c p).1
        → Waiting max_batch max_queue p'
    rounds :
        (c : Exporter A) {p p' : Processor A}
        → IsReliable c
        → Waiting max_batch max_queue p
        → run_round c p ≡ (ok tt, p')
        → Waiting max_batch max_queue p'

  module _ (max_batch max_queue : ℕ) (positive : 1 ≤ max_batch) where
    abbrev Ready : Processor A → Type 0
    Ready p = AllAwake max_batch positive p

    rounds-Ready :
        (c : Exporter A) (p p' : Processor A)
        → IsReliable c
        → Ready p
        → run_round c p ≡ (ok tt, p')
        → Ready p'
    rounds-Ready c p p' reliable h e =
        subst Ready (ap (λ (r : Result (Unit {0}) × Processor A). r.1) e) (
          round-AllAwake max_batch positive c p reliable h.0.0
            (ap (λ (r : Result (Unit {0}) × Processor A). r.0) e))

    Waiting-Ready : {p : Processor A} → Waiting max_batch max_queue p → Ready p
    unfolding has_batch new_processor
    Waiting-Ready starts = ground arith
    Waiting-Ready (submits kind records {p = p} w e) =
        let (m, l, t) = Waiting-Ready w in
        subst Ready (sym e) (
          submit-Awake max_batch positive metrics kind records p m,
          submit-Awake max_batch positive logs kind records p l,
          submit-Awake max_batch positive traces kind records p t,
        )
    Waiting-Ready (closes w) = Waiting-Ready w
    Waiting-Ready (flushes c {p = p} w e) =
        let (m, l, t) = Waiting-Ready w in
        subst Ready (sym e) (
          flush-Awake max_batch positive metrics c p m,
          flush-Awake max_batch positive logs c p l,
          flush-Awake max_batch positive traces c p t,
        )
    Waiting-Ready (rounds c {p = p} reliable w e) = rounds-Ready c p _ reliable (Waiting-Ready w) e

    -- Whenever the background task waits, whatever was submitted and flushed before and during its
    -- rounds, a queue that has a batch has set the event: no full batch waits for the interval. The batch
    -- size is above zero.
    pub Waiting-wakes :
        (p : Processor A) (kind : SignalKind) (queue : List A)
        → Waiting max_batch max_queue p
        → queue? kind p ≡ some queue
        → max_batch ≤ length queue
        → p.wake ≡ true
    unfolding has_batch queue?
    Waiting-wakes p metrics queue w e full = ground (arith, Waiting-Ready w)
    Waiting-wakes p logs queue w e full = ground (arith, Waiting-Ready w)
    Waiting-wakes p traces queue w e full = ground (arith, Waiting-Ready w)
    Waiting-wakes p profiles queue w e full = cc
