-- ===== src/Processor/Paths.antt =====
-- The code of `flush` and `__aexit__`, run to its end, is a sequence of steps of the system.
use asyncio_otlp_client.Base.{
  ℕ, ◌+◌, ◌≡◌, ◌≢◌, refl, true, some, List, [], ◌∷◌, ◌⊎◌, inl, inr, Exc, cancelled, Result, ok,
  raised, stuck, arith, ap,
}
use asyncio_otlp_client.Signals.{SignalKind, metrics, logs, traces, profiles}
use asyncio_otlp_client.Outcomes.{Accepted}
use asyncio_otlp_client.Processor.Defs.{Processor, queue?, set_queue, submit}
use asyncio_otlp_client.Processor.Flush.{
  Event, submitting, closing, Exporter, run_events, dispatch, settle_delivered, settle_raised,
  settle, flush_batch, flush_kind, and_then, flush,
}
use asyncio_otlp_client.Processor.System.{
  Phase, idle, next, awaiting, System, IsSound, refused_of, over_of_lem, after_take, submits,
  closes, starts, takes, delivers, fails, is_cancelled, ends, Reach, here, then_, Reach-trans,
}

-- What the processor relies on of the client: every call ends, with a reply that is sound.
abbrev pub IsSoundResult : Result Accepted → Type 0
IsSoundResult (ok accepted) = IsSound accepted
IsSoundResult (raised exc) = Unit
IsSoundResult stuck = ⊥

abbrev pub IsReliable : {A : Type 0} → Exporter A → Type 0
IsReliable {A} c =
    (kind : SignalKind) (batch : List A) → IsSoundResult (dispatch c kind batch).result

pub Exc-cases : (e : Exc) → (e ≡ cancelled) ⊎ (e ≢ cancelled)
Exc-cases e = ground arith

module _ {A : Type 0} where
  run_events-Reach :
      (es : List (Event A)) (s : System A) → Reach s (record s { proc = run_events es s.proc })
  unfolding run_events
  run_events-Reach [] s = here
  run_events-Reach (submitting kind records ∷ es) s =
      let s' : System A = record s { proc = (submit kind records s.proc).1 } in
      Reach-trans (then_ here (submits kind records refl)) (run_events-Reach es s')
  run_events-Reach (closing ∷ es) s =
      let s' : System A = record s { proc = record (s.proc) { closed = true } } in
      Reach-trans (then_ here (closes refl)) (run_events-Reach es s')

  -- Where the loop of `flush` goes on after a round.
  abbrev after_round : Result (Unit {0}) → List SignalKind → Phase A
  after_round (ok u) kinds = next kinds
  after_round (raised e) kinds = idle
  after_round stuck kinds = idle

  abbrev finished : Result (Unit {0}) × Processor A → List SignalKind → ℕ → System A
  finished (r, p) kinds n = record {
    proc = p;
    phase = after_round r kinds;
    refused = n;
    overcounted = 0;
  }

  settle_raised-ok :
      (kind : SignalKind) (batch : List A) (exc : Exc) (p : Processor A)
      → exc ≢ cancelled
      → (settle_raised kind batch exc p).0 ≡ ok tt
  unfolding settle_raised
  settle_raised-ok kind batch exc p h = ground arith

  settle-Reach :
      (kind : SignalKind) (batch : List A) (kinds : List SignalKind) (r : Result Accepted)
      (p : Processor A) (n : ℕ)
      → IsSoundResult r
      → (m : ℕ) × Reach
          (record { proc = p; phase = awaiting kind batch kinds; refused = n; overcounted = 0 })
          (finished (settle kind batch r p) kinds m)
  unfolding settle
  settle-Reach kind batch kinds (ok accepted) p n h = (
    n + refused_of batch accepted,
    then_ here (
        delivers kind batch kinds accepted refl (
          ap
            (λ k. record {
              proc = settle_delivered batch accepted p;
              phase = next kinds;
              refused = n + refused_of batch accepted;
              overcounted = k;
            })
            (omega (arith, over_of_lem batch accepted h)))),
  )
  settle-Reach kind batch kinds (raised exc) p n h = elim (Exc-cases exc) [
    | inl e ↦ rw e (n, then_ here (is_cancelled kind batch kinds refl refl))
    | inr ne ↦
        rw (settle_raised-ok kind batch exc p ne)
          (n, then_ here (fails kind batch kinds exc refl ne refl))
  ]
  settle-Reach kind batch kinds stuck p n h = absurd h

  flush_batch-Reach :
      (c : Exporter A) (kind : SignalKind) (batch : List A) (kinds : List SignalKind)
      (p : Processor A) (n : ℕ)
      → IsReliable c
      → (m : ℕ) × Reach
          (record { proc = p; phase = after_take kind batch kinds; refused = n; overcounted = 0 })
          (finished (flush_batch c kind batch p) kinds m)
  unfolding flush_batch
  flush_batch-Reach c kind [] kinds p n h = (n, here)
  flush_batch-Reach c kind (x ∷ xs) kinds p n h =
      let reply = dispatch c kind (x ∷ xs) in
      let (m, path) =
        settle-Reach kind (x ∷ xs) kinds reply.result (run_events reply.meanwhile p) n
          (h kind (x ∷ xs)) in
      (m, Reach-trans (run_events-Reach reply.meanwhile _) path)

  -- One round of the loop; its signal has a queue.
  flush_kind-Reach :
      (c : Exporter A) (kind : SignalKind) (q : List A) (kinds : List SignalKind) (p : Processor A)
      (n : ℕ)
      → IsReliable c
      → queue? kind p ≡ some q
      → (m : ℕ) × Reach
          (record { proc = p; phase = next (kind ∷ kinds); refused = n; overcounted = 0 })
          (finished (flush_kind c kind p) kinds m)
  unfolding flush_kind
  flush_kind-Reach c kind q kinds p n h e =
      let (m, path) = flush_batch-Reach c kind q kinds (set_queue kind [] p) n h in
      rw (e, flush_kind) (m, Reach-trans (then_ here (takes kind kinds q refl e refl)) path)

  -- The three signals of the loop, one after the other.
  queue?-some :
      (kind : SignalKind) (p : Processor A)
      → kind ≢ profiles
      → (q : List A) × (queue? kind p ≡ some q)
  unfolding queue?
  queue?-some metrics p h = (p.metrics_queue, refl)
  queue?-some logs p h = (p.logs_queue, refl)
  queue?-some traces p h = (p.traces_queue, refl)
  queue?-some profiles p h = absurd (h refl)

  -- A round, then the rest of the loop if the round did not raise.
  loop-Reach :
      (s : System A) (kinds : List SignalKind) (r : Result (Unit {0}) × Processor A)
      (rest : Processor A → Result (Unit {0}) × Processor A) (n : ℕ)
      → Reach s (finished r kinds n)
      → ((p : Processor A) (k : ℕ)
          → (m : ℕ) × Reach
              (record { proc = p; phase = next kinds; refused = k; overcounted = 0 })
              (finished (rest p) [] m))
      → (m : ℕ) × Reach s (finished (and_then r rest) [] m)
  loop-Reach s kinds (ok u, p) rest n path go =
      let (m, path') = go p n in (m, Reach-trans path path')
  loop-Reach s kinds (raised e, p) rest n path go = (n, path)
  loop-Reach s kinds (stuck, p) rest n path go = (n, path)

  round :
      (c : Exporter A) (kind : SignalKind) (kinds : List SignalKind) (p : Processor A) (n : ℕ)
      → IsReliable c
      → kind ≢ profiles
      → (m : ℕ) × Reach
          (record { proc = p; phase = next (kind ∷ kinds); refused = n; overcounted = 0 })
          (finished (flush_kind c kind p) kinds m)
  round c kind kinds p n h ne =
      let (q, e) = queue?-some kind p ne in flush_kind-Reach c kind q kinds p n h e

  to_rest :
      (s : System A) (r : Result (Unit {0}) × Processor A) (n : ℕ)
      → Reach s (finished r [] n)
      → Reach s (record { proc = r.1; phase = idle; refused = n; overcounted = 0 })
  to_rest s (ok u, p) n path = then_ path (ends refl refl)
  to_rest s (raised e, p) n path = path
  to_rest s (stuck, p) n path = path

  -- With a client whose calls end in sound replies, `flush` as it is written is a sequence of the
  -- system's steps, from no flush to no flush, whatever other tasks do during its awaits.
  pub flush-Reach :
      (c : Exporter A) (p : Processor A) (n : ℕ)
      → IsReliable c
      → (m : ℕ) × Reach
          (record { proc = p; phase = idle; refused = n; overcounted = 0 })
          (record { proc = (flush c p).1; phase = idle; refused = m; overcounted = 0 })
  unfolding flush
  flush-Reach c p n h =
      let begin : System A = record {
        proc = p;
        phase = next (metrics ∷ logs ∷ traces ∷ []);
        refused = n;
        overcounted = 0;
      } in
      let (n₁, path₁) = round c metrics (logs ∷ traces ∷ []) p n h (cc) in
      let (m, path) =
        loop-Reach begin (logs ∷ traces ∷ []) (flush_kind c metrics p)
          (λ p₁. and_then (flush_kind c logs p₁) (flush_kind c traces)) n₁ path₁
          (λ p₁ k₁.
            let (n₂, path₂) = round c logs (traces ∷ []) p₁ k₁ h (cc) in
            loop-Reach _ (traces ∷ []) (flush_kind c logs p₁) (flush_kind c traces) n₂ path₂
              (λ p₂ k₂. round c traces [] p₂ k₂ h (cc))) in
      (m, Reach-trans (then_ here (starts refl refl)) (to_rest begin _ m path))
