-- ===== src/Processor/Balance.antt =====
-- No record is lost from the counters, in any interleaving.
use asyncio_otlp_client.Base.{ℕ, ◌+◌, ◌≡◌, some, List, [], ◌∷◌, length, Exc, cancelled, arith, ap}
use asyncio_otlp_client.Base.Int.{◌-ℤ◌}
use asyncio_otlp_client.Signals.{SignalKind}
use asyncio_otlp_client.Outcomes.{Accepted, all_accepted, some_rejected}
use asyncio_otlp_client.Processor.Defs.{Processor, new_processor, queue?, set_queue}
use asyncio_otlp_client.Processor.Flush.{settle_delivered, settle_raised}
use asyncio_otlp_client.Processor.Bounds.{IsBounded, queued, submit-IsBounded, submit-balance}
use asyncio_otlp_client.Processor.System.{
  System, refused_of, over_of, in_flight, after_take, Step, Reach, submits, closes, starts, takes,
  delivers, fails, is_cancelled, ends, Reach, here, then_, at_rest,
}

-- The queues are bounded, and every record that was submitted is exported, dropped, refused by
-- the collector, queued, or in the export that is awaited; where a collector reported a negative number
-- of rejected records, `exported` has what that adds as well.
pub record IsAccounted {A : Type 0} (s : System A) : Type 0 where
  pub bounded : IsBounded s.proc
  pub balance :
      s.proc.submitted + s.overcounted
      ≡ s.proc.exported + s.proc.dropped + s.refused + queued s.proc + in_flight s.phase

module _ {A : Type 0} where
  new_processor-IsAccounted :
      (max_batch max_queue : ℕ) → IsAccounted {A = A} (at_rest (new_processor max_batch max_queue))
  unfolding new_processor
  new_processor-IsAccounted max_batch max_queue = omega arith

  -- Taking a queue moves its records into the export.
  take-queued :
      (kind : SignalKind) (kinds : List SignalKind) (q : List A) (p : Processor A)
      → queue? kind p ≡ some q
      → queued p ≡ queued (set_queue kind [] p) + in_flight (after_take kind q kinds)
  unfolding queue? set_queue
  take-queued kind kinds [] p e = ground arith
  take-queued kind kinds (x ∷ q) p e = ground arith

  -- What a delivery adds to `exported` and to the refused records is the batch, and what a negative
  -- number adds to `exported`.
  delivered-balance :
      (batch : List A) (accepted : Accepted) (p : Processor A)
      → let p' = settle_delivered batch accepted p in
        (p'.exported + refused_of batch accepted
          ≡ p.exported + length batch + over_of batch accepted)
        × (p'.dropped ≡ p.dropped)
        × (p'.submitted ≡ p.submitted)
        × (queued p' ≡ queued p)
  unfolding settle_delivered refused_of over_of ◌-ℤ◌
  delivered-balance batch all_accepted p = ground arith
  delivered-balance batch (some_rejected partial) p = ground arith

  -- A batch that raised is dropped whole.
  raised-balance :
      (kind : SignalKind) (batch : List A) (exc : Exc) (p : Processor A)
      → let p' = (settle_raised kind batch exc p).1 in
        (p'.dropped ≡ p.dropped + length batch)
        × (p'.exported ≡ p.exported)
        × (p'.submitted ≡ p.submitted)
        × (queued p' ≡ queued p)
  unfolding settle_raised
  raised-balance kind batch exc p = ground arith

  set_queue-counts :
      (kind : SignalKind) (q : List A) (p : Processor A)
      → let p' = set_queue kind q p in
        (p'.submitted ≡ p.submitted) × (p'.exported ≡ p.exported) × (p'.dropped ≡ p.dropped)
  unfolding set_queue
  set_queue-counts kind q p = ground arith

  set_queue-IsBounded :
      (kind : SignalKind) (p : Processor A) → IsBounded p → IsBounded (set_queue kind [] p)
  unfolding set_queue
  set_queue-IsBounded kind p b = ground arith

  delivered-IsBounded :
      (batch : List A) (accepted : Accepted) (p : Processor A)
      → IsBounded p
      → IsBounded (settle_delivered batch accepted p)
  unfolding settle_delivered
  delivered-IsBounded batch accepted p b = ground arith

  raised-IsBounded :
      (kind : SignalKind) (batch : List A) (exc : Exc) (p : Processor A)
      → IsBounded p
      → IsBounded (settle_raised kind batch exc p).1
  unfolding settle_raised
  raised-IsBounded kind batch exc p b = ground arith

  -- Every step of every task keeps the account.
  Step-IsAccounted : {s t : System A} → Step s t → IsAccounted s → IsAccounted t
  Step-IsAccounted {s} (submits kind records e) v = rw e (record {
    bounded = submit-IsBounded kind records s.proc v.bounded;
    balance = omega (arith, submit-balance kind records s.proc v.bounded);
  })
  Step-IsAccounted (closes e) v = rw e (record { bounded = ground arith; balance = ground arith })
  Step-IsAccounted (starts i e) v = rw e (record { bounded = v.bounded; balance = ground arith })
  Step-IsAccounted {s} (takes kind kinds q i o e) v = rw e (record {
    bounded = set_queue-IsBounded kind s.proc v.bounded;
    balance =
        omega (
          arith,
          take-queued kind kinds q s.proc o,
          set_queue-counts kind [] s.proc,
          ap in_flight i,
        );
  })
  Step-IsAccounted {s} (delivers kind batch kinds accepted i e) v = rw e (record {
    bounded = delivered-IsBounded batch accepted s.proc v.bounded;
    balance = omega (arith, delivered-balance batch accepted s.proc, ap in_flight i);
  })
  Step-IsAccounted {s} (fails kind batch kinds exc i h e) v = rw e (record {
    bounded = raised-IsBounded kind batch exc s.proc v.bounded;
    balance = omega (arith, raised-balance kind batch exc s.proc, ap in_flight i);
  })
  Step-IsAccounted {s} (is_cancelled kind batch kinds i e) v = rw e (record {
    bounded = raised-IsBounded kind batch cancelled s.proc v.bounded;
    balance = omega (arith, raised-balance kind batch cancelled s.proc, ap in_flight i);
  })
  Step-IsAccounted (ends i e) v = rw e (record { bounded = v.bounded; balance = ground arith })

  pub Reach-IsAccounted : {s t : System A} → IsAccounted s → Reach s t → IsAccounted t
  Reach-IsAccounted v here = v
  Reach-IsAccounted v (then_ r st) = Step-IsAccounted st (Reach-IsAccounted v r)

  -- From a new processor, after any interleaving of submissions, flushes, failures, cancellations
  -- and closing: every queue is within `max_queue`, and every record counted as submitted is
  -- exported, dropped, refused by a collector, queued, or in the export that is awaited. What the
  -- collectors reply is any number: what a negative number of rejected records adds to `exported` is
  -- counted as `overcounted`, and `exported` exceeds the account by that and no more.
  pub records-IsAccounted :
      (max_batch max_queue : ℕ) {t : System A}
      → Reach (at_rest (new_processor max_batch max_queue)) t
      → IsAccounted t
  records-IsAccounted max_batch max_queue r =
      Reach-IsAccounted (new_processor-IsAccounted max_batch max_queue) r
