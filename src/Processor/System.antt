-- ===== src/Processor/System.antt =====
-- The processor among other tasks: each step is what one task does between two awaits. The lock of
-- `flush` lets one flush run at a time, so a phase says how far that one is; submissions and the
-- closing of `__aexit__` come in between at any point.
use asyncio_otlp_client.Base.{
  ℕ, ◌+◌, ◌-◌, ◌≡◌, ◌≢◌, refl, true, some, List, [], ◌∷◌, if◌then◌else◌, length, is_empty, Exc,
  cancelled, arith,
}
use asyncio_otlp_client.Base.Int.{pos, ◌-ℤ◌, ◌≤ℤ◌, clamp}
use asyncio_otlp_client.Signals.{SignalKind, metrics, logs, traces}
use asyncio_otlp_client.Outcomes.{Accepted, all_accepted, some_rejected}
use asyncio_otlp_client.Processor.Defs.{Processor, queue?, set_queue, submit}
use asyncio_otlp_client.Processor.Flush.{settle_delivered, settle_raised}

-- `next` are the signals that the loop of `flush` has still to visit.
pub data Phase (A : Type 0) : Type 0 where
  idle : Phase A
  next : List SignalKind → Phase A
  awaiting : SignalKind → List A → List SignalKind → Phase A

-- Two fields that the program does not have: `refused` counts the records that collectors reported as
-- rejected, and `overcounted` what negative numbers of them added to `exported`.
pub record System (A : Type 0) : Type 0 where
  pub proc : Processor A
  pub phase : Phase A
  pub refused : ℕ
  pub overcounted : ℕ

-- A collector does not reject a negative number of records.
abbrev pub IsSound : Accepted → Type 0
IsSound all_accepted = Unit
IsSound (some_rejected partial) = pos 0 ≤ℤ partial.rejected

module _ {A : Type 0} where
  -- the records of a batch that are not counted as exported
  unfoldable pub refused_of : List A → Accepted → ℕ
  refused_of batch all_accepted = 0
  refused_of batch (some_rejected partial) =
      length batch - clamp (pos (length batch) -ℤ partial.rejected)

  -- what is counted as exported above the records of the batch
  unfoldable pub over_of : List A → Accepted → ℕ
  over_of batch all_accepted = 0
  over_of batch (some_rejected partial) =
      clamp (pos (length batch) -ℤ partial.rejected) - length batch

  -- Of a sound reply there is nothing above.
  pub over_of_lem :
      (batch : List A) (accepted : Accepted) → IsSound accepted → over_of batch accepted ≡ 0
  unfolding over_of ◌-ℤ◌
  over_of_lem batch all_accepted h = refl
  over_of_lem batch (some_rejected partial) h = ground arith

  abbrev pub in_flight : Phase A → ℕ
  in_flight idle = 0
  in_flight (next kinds) = 0
  in_flight (awaiting kind batch kinds) = length batch

  abbrev pub after_take : SignalKind → List A → List SignalKind → Phase A
  after_take kind q kinds = if is_empty q then next kinds else awaiting kind q kinds

-- One step of the system, by the task that makes it.
pub data Step {A : Type 0} (s t : System A) : Type 0 where
  submits :
      (kind : SignalKind) (records : List A)
      → t ≡ record s { proc = (submit kind records s.proc).1 }
      → Step s t
  closes : t ≡ record s { proc = record (s.proc) { closed = true } } → Step s t
  starts : s.phase ≡ idle → t ≡ record s { phase = next (metrics ∷ logs ∷ traces ∷ []) } → Step s t
  takes :
      (kind : SignalKind) (kinds : List SignalKind) (q : List A)
      → s.phase ≡ next (kind ∷ kinds)
      → queue? kind s.proc ≡ some q
      → t ≡ record s { proc = set_queue kind [] s.proc; phase = after_take kind q kinds }
      → Step s t
  delivers :
      (kind : SignalKind) (batch : List A) (kinds : List SignalKind) (accepted : Accepted)
      → s.phase ≡ awaiting kind batch kinds
      → t ≡ record s {
        proc = settle_delivered batch accepted s.proc;
        phase = next kinds;
        refused = s.refused + refused_of batch accepted;
        overcounted = s.overcounted + over_of batch accepted;
      }
      → Step s t
  fails :
      (kind : SignalKind) (batch : List A) (kinds : List SignalKind) (exc : Exc)
      → s.phase ≡ awaiting kind batch kinds
      → exc ≢ cancelled
      → t ≡ record s { proc = (settle_raised kind batch exc s.proc).1; phase = next kinds }
      → Step s t
  is_cancelled :
      (kind : SignalKind) (batch : List A) (kinds : List SignalKind)
      → s.phase ≡ awaiting kind batch kinds
      → t ≡ record s { proc = (settle_raised kind batch cancelled s.proc).1; phase = idle }
      → Step s t
  ends : s.phase ≡ next [] → t ≡ record s { phase = idle } → Step s t

pub data Reach {A : Type 0} (s : System A) : System A → Type 0 where
  here : Reach s s
  then_ : {t u : System A} → Reach s t → Step t u → Reach s u

pub Reach-trans : {A : Type 0} {s t u : System A} → Reach s t → Reach t u → Reach s u
Reach-trans r here = r
Reach-trans r (then_ r' st) = then_ (Reach-trans r r') st

-- A processor and no flush.
abbrev pub at_rest : {A : Type 0} → Processor A → System A
at_rest p = record { proc = p; phase = idle; refused = 0; overcounted = 0 }
