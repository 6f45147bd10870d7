-- ===== src/Processor/Flush.antt =====
-- `flush`, `_export_batch`, `_log_export_failure`, a round of `_run`, `__aenter__` and `__aexit__`.
-- While an export is awaited other tasks run: a reply carries what they did to the processor.
use asyncio_otlp_client.Base.{
  ◌+◌, true, false, Option, none, some, List, [], ◌∷◌, ◌++◌, ◌==◌, if◌then◌else◌, length, is_empty,
  Str, text, Exc, config_error, transport_error, permanent_error, type_error, value_error,
  not_implemented, key_error, other_error, cancelled, Result, ok, raised, stuck,
}
use asyncio_otlp_client.Base.Int.{pos, ◌-ℤ◌, clamp}
use asyncio_otlp_client.Signals.{SignalKind, metrics, logs, traces, profiles}
use asyncio_otlp_client.Outcomes.{Accepted, all_accepted, some_rejected}
use asyncio_otlp_client.Processor.Defs.{
  Processor, LogEntry, warning, debug, queue?, set_queue, submit,
}

-- `str(exc)`
unfoldable pub exc_text : Exc → Str
exc_text (config_error m) = m
exc_text (transport_error m) = m
exc_text (permanent_error m) = m
exc_text (type_error m) = m
exc_text (value_error m) = m
exc_text (not_implemented m) = m
exc_text key_error = []
exc_text (other_error m) = m
exc_text cancelled = []

-- What another task may do to the processor while a flush waits.
pub data Event (A : Type 0) : Type 0 where
  submitting : SignalKind → List A → Event A
  closing : Event A

pub record Reply (A : Type 0) : Type 0 where
  pub meanwhile : List (Event A)
  pub result : Result Accepted

-- The client, as the processor calls it during one flush.
pub record Exporter (A : Type 0) : Type 0 where
  pub export_metrics : List A → Reply A
  pub export_logs : List A → Reply A
  pub export_traces : List A → Reply A

module _ {A : Type 0} where
  unfoldable pub run_event : Event A → Processor A → Processor A
  unfolding submit
  run_event (submitting kind records) p = (submit kind records p).1
  run_event closing p = record p { closed = true }

  unfoldable pub run_events : List (Event A) → Processor A → Processor A
  unfolding run_event
  run_events [] p = p
  run_events (e ∷ es) p = run_events es (run_event e p)

  -- the call that `_export_batch` makes for a signal
  unfoldable pub dispatch : Exporter A → SignalKind → List A → Reply A
  dispatch c metrics batch = c.export_metrics batch
  dispatch c logs batch = c.export_logs batch
  dispatch c traces batch = c.export_traces batch
  dispatch c profiles batch = record {
    meanwhile = [];
    result = raised (not_implemented (text "no processor branch for profiles"));
  }

  -- `_log_export_failure`
  unfoldable pub log_export_failure : SignalKind → Exc → Processor A → Processor A
  log_export_failure kind exc p =
      let entry : LogEntry = record {
        level = if p.consecutive_failures == 1 then warning else debug;
        kind = some kind;
        message = exc_text exc;
      } in
      record p { log = p.log ++ (entry ∷ []) }

  -- the `except Exception` branch of `flush`
  unfoldable pub settle_failed : SignalKind → List A → Exc → Processor A → Processor A
  unfolding log_export_failure
  settle_failed kind batch exc p = log_export_failure kind exc (record p {
    consecutive_failures = p.consecutive_failures + 1;
    last_error = some (exc_text exc);
    dropped = p.dropped + length batch;
  })

  -- the branch of a delivered batch: `result if isinstance(result, PartialSuccess) else None`
  unfoldable pub settle_delivered : List A → Accepted → Processor A → Processor A
  settle_delivered batch all_accepted p = record p {
    consecutive_failures = 0;
    last_error = none;
    exported = p.exported + length batch;
  }
  settle_delivered batch (some_rejected partial) p = record p {
    consecutive_failures = 0;
    last_error = some (text "partial success: " ++ partial.message);
    exported = p.exported + clamp (pos (length batch) -ℤ partial.rejected);
  }

  unfoldable pub settle_raised :
      SignalKind → List A → Exc → Processor A → Result (Unit {0}) × Processor A
  unfolding settle_failed
  settle_raised kind batch cancelled p =
      (raised cancelled, record p { dropped = p.dropped + length batch })
  settle_raised kind batch exc p = (ok tt, settle_failed kind batch exc p)

  -- what follows the awaited export
  unfoldable pub settle :
      SignalKind → List A → Result Accepted → Processor A → Result (Unit {0}) × Processor A
  unfolding settle_raised settle_delivered
  settle kind batch (ok accepted) p = (ok tt, settle_delivered batch accepted p)
  settle kind batch (raised exc) p = settle_raised kind batch exc p
  settle kind batch stuck p = (stuck, p)

  -- one round of the loop in `flush`, over a batch that has been taken from its queue
  unfoldable pub flush_batch :
      Exporter A → SignalKind → List A → Processor A → Result (Unit {0}) × Processor A
  unfolding settle dispatch run_events
  flush_batch c kind batch p =
      let reply = dispatch c kind batch in
      if is_empty batch
      then (ok tt, p)
      else settle kind batch reply.result (run_events reply.meanwhile p)

  unfoldable pub flush_kind :
      Exporter A → SignalKind → Processor A → Result (Unit {0}) × Processor A
  unfolding flush_batch queue? set_queue
  flush_kind c kind p = elim (queue? kind p) [
    | none ↦ (ok tt, p)
    | some queue ↦ flush_batch c kind queue (set_queue kind [] p)
  ]

  -- after a round that raised, the loop is left
  abbrev pub and_then :
      Result (Unit {0}) × Processor A
      → (Processor A → Result (Unit {0}) × Processor A)
      → Result (Unit {0}) × Processor A
  and_then (r, p) next = elim r [ ok u ↦ next p | raised e ↦ (raised e, p) | stuck ↦ (stuck, p) ]

  -- `flush`; the dict keeps its order of insertion
  unfoldable pub flush : Exporter A → Processor A → Result (Unit {0}) × Processor A
  unfolding flush_kind
  flush c p =
      and_then (flush_kind c metrics p)
        λ p₁. and_then (flush_kind c logs p₁) λ p₂. flush_kind c traces p₂

  -- the `except Exception` of `_run`
  unfoldable pub run_caught : Exc → Processor A → Result (Unit {0}) × Processor A
  run_caught cancelled p = (raised cancelled, p)
  run_caught exc p =
      let entry : LogEntry = record { level = warning; kind = none; message = exc_text exc } in
      (
        ok tt,
        record p {
          consecutive_failures = p.consecutive_failures + 1;
          last_error = some (exc_text exc);
          log = p.log ++ (entry ∷ []);
          flushed = true;
        },
      )

  unfoldable pub run_settle : Result (Unit {0}) × Processor A → Result (Unit {0}) × Processor A
  unfolding run_caught
  run_settle (r, p) = elim r [
    | ok u ↦ (ok tt, record p { flushed = true })
    | raised exc ↦ run_caught exc p
    | stuck ↦ (stuck, p)
  ]

  -- a round of `_run`, from the moment that its wait is over
  unfoldable pub run_round : Exporter A → Processor A → Result (Unit {0}) × Processor A
  unfolding flush run_settle
  run_round c p = run_settle (flush c (record p { wake = false; flushed = false }))

  -- Cancelling the background task raises in the export that it awaits, if any: `in_flight` is the
  -- batch of that export.
  unfoldable pub cancel_task : Option (SignalKind × List A) → Processor A → Processor A
  unfolding settle
  cancel_task none p = p
  cancel_task (some (kind, batch)) p = (settle kind batch (raised cancelled) p).1

  -- `__aexit__`
  unfoldable pub aexit :
      Exporter A → Option (SignalKind × List A) → Processor A → Result (Unit {0}) × Processor A
  unfolding flush cancel_task
  aexit c in_flight p = flush c (cancel_task in_flight (record p { closed = true }))
