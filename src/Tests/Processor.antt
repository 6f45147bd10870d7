-- ===== src/Tests/Processor.antt =====
-- Runs of the processor, and one of the system with a submission during a flush.
use asyncio_otlp_client.Base.{
  ℕ, ◌+◌, ◌≡◌, ◌≢◌, refl, false, true, ◌||◌, some, List, [], ◌∷◌, ◌++◌, map, keep_last, leb, min,
  text, other_error, ok, raised, arith, key_error,
}
use asyncio_otlp_client.Base.Int.{pos, negsuc, ◌-ℤ◌}
use asyncio_otlp_client.Signals.{metrics, logs, traces, profiles}
use asyncio_otlp_client.Outcomes.{all_accepted, some_rejected}
use asyncio_otlp_client.Processor.Defs.{Processor, new_processor, submit, queue?, warning, debug}
use asyncio_otlp_client.Processor.Flush.{
  submitting, Reply, Exporter, flush, aexit, run_events, settle_delivered, dispatch,
}
use asyncio_otlp_client.Processor.Bounds.{queued, IsBounded, submit_lem}
use asyncio_otlp_client.Processor.System.{
  System, Reach, here, then_, submits, starts, takes, idle, awaiting, at_rest,
}
use asyncio_otlp_client.Processor.Balance.{IsAccounted, records-IsAccounted}
use asyncio_otlp_client.Processor.Paths.{IsReliable, flush-Reach}
use asyncio_otlp_client.Processor.Shutdown.{IsQuiet, flush-IsQuiet, interrupted, aexit_lem}
use asyncio_otlp_client.Processor.Failures.{
  Failure, entry, outage, outage_lem, delivered-misreported, AllAccept, flush-accepted,
}

-- Records are numbers; a queue holds three of them.
abbrev empty : Processor ℕ
empty = new_processor 2 3

abbrev loaded : Processor ℕ
loaded = (submit logs (1 ∷ 2 ∷ []) empty).1

-- A collector that takes metrics, rejects one log record while another task submits one, and fails
-- for traces.
abbrev collector : Exporter ℕ
collector = record {
  export_metrics = λ batch. record { meanwhile = []; result = ok all_accepted };
  export_logs = λ batch. record {
    meanwhile = submitting logs (9 ∷ []) ∷ [];
    result = ok (some_rejected (record { rejected = pos 1; message = text "too old" }));
  };
  export_traces = λ batch. record { meanwhile = []; result = raised (other_error (text "down")) };
}

collector-IsReliable : IsReliable collector
unfolding dispatch
collector-IsReliable metrics batch = tt
collector-IsReliable logs batch = omega arith
collector-IsReliable traces batch = tt
collector-IsReliable profiles batch = tt

submit-evicts :
    let (r, p) = submit logs (3 ∷ 4 ∷ []) loaded in
    (r ≡ ok false) × (p.logs_queue ≡ 2 ∷ 3 ∷ 4 ∷ []) × (p.dropped ≡ 1) × (p.submitted ≡ 4)
unfolding submit new_processor
submit-evicts = (refl, refl, refl, refl)

submit-profiles : (submit profiles (1 ∷ []) empty).0 ≡ raised key_error
unfolding submit new_processor
submit-profiles = refl

flush-counts :
    let (r, p) = flush collector loaded in
    (r ≡ ok tt) × (p.exported ≡ 1) × (p.dropped ≡ 0) × (p.logs_queue ≡ 9 ∷ [])
unfolding flush submit new_processor run_events dispatch ◌-ℤ◌
flush-counts = (refl, refl, refl, refl)

-- Two records are submitted, a flush takes them, and a third comes in during the export.
abbrev taken : System ℕ
taken = record {
  proc = record loaded { logs_queue = [] };
  phase = awaiting logs (1 ∷ 2 ∷ []) (traces ∷ []);
  refused = 0;
  overcounted = 0;
}

abbrev busy : System ℕ
busy = record taken { proc = (submit logs (3 ∷ []) taken.proc).1 }

busy-Reach : Reach (at_rest empty) busy
unfolding submit new_processor queue?
busy-Reach =
    then_
      (then_
        (then_ (then_ (then_ here (submits logs (1 ∷ 2 ∷ []) refl)) (starts refl refl))
          (takes metrics (logs ∷ traces ∷ []) [] refl refl refl))
        (takes logs (traces ∷ []) (1 ∷ 2 ∷ []) refl refl refl))
      (submits logs (3 ∷ []) refl)

records-IsAccounted_example : IsAccounted busy
records-IsAccounted_example = records-IsAccounted 2 3 busy-Reach

flush-Reach_example :
    (m : ℕ) × Reach
      (record { proc = loaded; phase = idle; refused = 0; overcounted = 0 })
      (record { proc = (flush collector loaded).1; phase = idle; refused = m; overcounted = 0 })
flush-Reach_example = flush-Reach collector loaded 0 collector-IsReliable

flush-IsQuiet_example : IsQuiet (flush collector loaded).0
flush-IsQuiet_example = flush-IsQuiet collector loaded collector-IsReliable

-- The background task is interrupted in the export of `taken`.
abbrev interrupted_proc : Processor ℕ
interrupted_proc = record loaded { logs_queue = 3 ∷ []; submitted = 3 }

interrupted-IsAccounted : IsAccounted (record {
  proc = interrupted_proc;
  phase = interrupted (some (logs, 1 ∷ 2 ∷ []));
  refused = 0;
  overcounted = 0;
})
unfolding submit new_processor
interrupted-IsAccounted = ground arith

aexit_lem_example :
    let (r, p') = aexit collector (some (logs, 1 ∷ 2 ∷ [])) interrupted_proc in
    IsQuiet r
    × (p'.closed ≡ true)
    × ((m : ℕ) × Reach
          (record {
            proc = interrupted_proc;
            phase = interrupted (some (logs, 1 ∷ 2 ∷ []));
            refused = 0;
            overcounted = 0;
          })
          (record { proc = p'; phase = idle; refused = m; overcounted = 0 })
        × (p'.submitted ≡ p'.exported + p'.dropped + m + queued p')
        × (r ≡ ok tt → queued p' ≡ 0))
aexit_lem_example =
    aexit_lem collector (some (logs, 1 ∷ 2 ∷ [])) interrupted_proc 0 collector-IsReliable
      interrupted-IsAccounted

loaded-IsBounded : IsBounded loaded
unfolding submit new_processor
loaded-IsBounded = record {
  metrics_bound = omega arith;
  logs_bound = omega arith;
  traces_bound = omega arith;
}

submit_lem_example :
    let (r, p') = submit logs (3 ∷ 4 ∷ []) loaded in
    (r ≡ ok (leb 4 3))
    × (queue? logs p' ≡ some (keep_last 3 (1 ∷ 2 ∷ 3 ∷ 4 ∷ [])))
    × (traces ≢ logs → queue? traces p' ≡ queue? traces loaded)
    × (p'.submitted ≡ loaded.submitted + 2)
    × (p'.dropped ≡ loaded.dropped + 1)
    × (p'.wake ≡ (loaded.wake || leb 2 (min 3 4)))
unfolding submit new_processor queue?
submit_lem_example = submit_lem logs traces (3 ∷ 4 ∷ []) (1 ∷ 2 ∷ []) loaded refl refl (omega arith)

abbrev failure : Failure ℕ
failure = (traces, 5 ∷ 6 ∷ [], other_error (text "down"))

outage_lem_example :
    let p' = outage (failure ∷ failure ∷ []) empty in
    (p'.log ≡ empty.log ++ (entry warning failure ∷ map (entry debug) (failure ∷ [])))
    × (p'.consecutive_failures ≡ 2)
    × (p'.dropped ≡ empty.dropped + 4)
    × (p'.exported ≡ empty.exported)
unfolding new_processor
outage_lem_example = outage_lem failure (failure ∷ []) empty refl

delivered-misreported_example :
    ((settle_delivered
        (5 ∷ 6 ∷ [])
        (some_rejected (record { rejected = negsuc 4; message = [] }))
        empty).exported
      ≡ empty.exported + 2 + 5)
    × ((settle_delivered
          (5 ∷ 6 ∷ [])
          (some_rejected (record { rejected = pos 6; message = [] }))
          empty).exported
        ≡ empty.exported)
delivered-misreported_example = delivered-misreported (5 ∷ 6 ∷ []) 4 [] empty

abbrev welcoming : Exporter ℕ
welcoming =
    let reply : List ℕ → Reply ℕ = λ batch. record { meanwhile = []; result = ok all_accepted } in
    record { export_metrics = reply; export_logs = reply; export_traces = reply }

welcoming-AllAccept : AllAccept welcoming
unfolding dispatch
welcoming-AllAccept metrics batch ne = (refl, refl)
welcoming-AllAccept logs batch ne = (refl, refl)
welcoming-AllAccept traces batch ne = (refl, refl)
welcoming-AllAccept profiles batch ne = absurd (ne refl)

flush-accepted_example :
    let (r, p') = flush welcoming loaded in
    (r ≡ ok tt)
    × (p'.exported ≡ loaded.exported + 2)
    × (p'.dropped ≡ loaded.dropped)
    × (queued p' ≡ 0)
unfolding submit new_processor
flush-accepted_example = flush-accepted welcoming loaded welcoming-AllAccept
