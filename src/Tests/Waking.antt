-- ===== src/Tests/Waking.antt =====
-- A round of the background task during which another task submits a full batch.
use asyncio_otlp_client.Base.{ℕ, ◌≡◌, refl, true, some, [], ◌∷◌, ok, arith}
use asyncio_otlp_client.Signals.{metrics, logs, traces, profiles}
use asyncio_otlp_client.Outcomes.{all_accepted}
use asyncio_otlp_client.Processor.Defs.{Processor, new_processor, submit, queue?}
use asyncio_otlp_client.Processor.Flush.{
  submitting, Exporter, run_events, dispatch, flush, run_round,
}
use asyncio_otlp_client.Processor.Paths.{IsReliable}
use asyncio_otlp_client.Processor.Wake.{Waiting, starts, submits, rounds, Waiting-wakes}

abbrev accepting : Exporter ℕ
accepting = record {
  export_metrics = λ batch. record { meanwhile = []; result = ok all_accepted };
  export_logs =
      λ batch. record { meanwhile = submitting logs (5 ∷ 6 ∷ []) ∷ []; result = ok all_accepted };
  export_traces = λ batch. record { meanwhile = []; result = ok all_accepted };
}

accepting-IsReliable : IsReliable accepting
unfolding dispatch
accepting-IsReliable metrics batch = tt
accepting-IsReliable logs batch = tt
accepting-IsReliable traces batch = tt
accepting-IsReliable profiles batch = tt

abbrev submitted : Processor ℕ
submitted = (submit logs (3 ∷ []) (new_processor 2 3)).1

abbrev flushed : Processor ℕ
flushed = (run_round accepting submitted).1

round-ends : run_round accepting submitted ≡ (ok tt, flushed)
unfolding run_round flush submit new_processor run_events dispatch
round-ends = refl

submitted-again : queue? logs flushed ≡ some (5 ∷ 6 ∷ [])
unfolding run_round flush submit new_processor run_events dispatch
submitted-again = refl

flushed-Waiting : Waiting 2 3 flushed
flushed-Waiting =
    rounds accepting accepting-IsReliable (submits logs (3 ∷ []) starts refl) round-ends

Waiting-wakes_example : flushed.wake ≡ true
Waiting-wakes_example =
    Waiting-wakes 2 3 (omega arith) flushed logs (5 ∷ 6 ∷ []) flushed-Waiting submitted-again
      (omega arith)
