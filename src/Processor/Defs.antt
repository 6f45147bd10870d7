-- ===== src/Processor/Defs.antt =====
-- The state of `BatchProcessor`, `stats`, and `_submit` with the bounded queues.
-- `A` is the type of a queued record. A `max_batch` below zero acts as zero.
use asyncio_otlp_client.Base.{
  ℕ, ◌+◌, Bool, true, false, Option, none, some, List, [], ◌∷◌, ◌++◌, ltb, leb, ◌==◌, if◌then◌else◌,
  length, drop, Str, Result, ok, raised, key_error,
}
use asyncio_otlp_client.Signals.{SignalKind, metrics, logs, traces, profiles}

pub data Level : Type 0 where
  warning debug : Level

-- The loop of the background task logs for no signal.
pub record LogEntry : Type 0 where
  pub level : Level
  pub kind : Option SignalKind
  pub message : Str

pub record ProcessorStats : Type 0 where
  pub submitted : ℕ
  pub exported : ℕ
  pub dropped : ℕ
  pub consecutive_failures : ℕ
  pub last_error : Option Str

-- `wake` and `flushed` are the flags of the two `asyncio.Event`s; `log` is what was logged.
pub record Processor (A : Type 0) : Type 0 where
  pub max_batch : ℕ
  pub max_queue : ℕ
  pub metrics_queue : List A
  pub logs_queue : List A
  pub traces_queue : List A
  pub wake : Bool
  pub closed : Bool
  pub flushed : Bool
  pub submitted : ℕ
  pub exported : ℕ
  pub dropped : ℕ
  pub consecutive_failures : ℕ
  pub last_error : Option Str
  pub log : List LogEntry

module _ {A : Type 0} where
  -- `BatchProcessor.__init__`
  unfoldable pub new_processor : ℕ → ℕ → Processor A
  new_processor max_batch max_queue = record {
    max_batch = max_batch;
    max_queue = max_queue;
    metrics_queue = [];
    logs_queue = [];
    traces_queue = [];
    wake = false;
    closed = false;
    flushed = false;
    submitted = 0;
    exported = 0;
    dropped = 0;
    consecutive_failures = 0;
    last_error = none;
    log = [];
  }

  unfoldable pub stats : Processor A → ProcessorStats
  stats p = record {
    submitted = p.submitted;
    exported = p.exported;
    dropped = p.dropped;
    consecutive_failures = p.consecutive_failures;
    last_error = p.last_error;
  }

  -- `self._queues[kind]`; there is no queue for profiles
  unfoldable pub queue? : SignalKind → Processor A → Option (List A)
  queue? metrics p = some p.metrics_queue
  queue? logs p = some p.logs_queue
  queue? traces p = some p.traces_queue
  queue? profiles p = none

  unfoldable pub set_queue : SignalKind → List A → Processor A → Processor A
  set_queue metrics q p = record p { metrics_queue = q }
  set_queue logs q p = record p { logs_queue = q }
  set_queue traces q p = record p { traces_queue = q }
  set_queue profiles q p = p

  -- `deque(maxlen=maxlen).append(x)`: a full deque loses its oldest item
  unfoldable pub append : ℕ → List A → A → List A
  append maxlen q x = let q' = q ++ (x ∷ []) in if ltb maxlen (length q') then drop 1 q' else q'

-- The variables of the loop in `_submit`.
pub record Loop (A : Type 0) : Type 0 where
  pub queue : List A
  pub dropped : ℕ
  pub submitted : ℕ
  pub accepted : Bool

module _ {A : Type 0} where
  -- the body of the loop
  unfoldable pub submit_one : ℕ → Loop A → A → Loop A
  unfolding append
  submit_one maxlen s x =
      let full = length s.queue == maxlen in
      record {
        queue = append maxlen s.queue x;
        dropped = if full then s.dropped + 1 else s.dropped;
        submitted = s.submitted + 1;
        accepted = if full then false else s.accepted;
      }

  unfoldable pub submit_all : ℕ → Loop A → List A → Loop A
  unfolding submit_one
  submit_all maxlen s [] = s
  submit_all maxlen s (x ∷ xs) = submit_all maxlen (submit_one maxlen s x) xs

  -- the variables before the first round
  abbrev pub start_loop : List A → Processor A → Loop A
  start_loop queue p = record {
    queue = queue;
    dropped = p.dropped;
    submitted = p.submitted;
    accepted = true;
  }

  -- `_submit` once the queue is looked up
  unfoldable pub submit_to : SignalKind → List A → List A → Processor A → Result Bool × Processor A
  unfolding submit_all set_queue
  submit_to kind records queue p =
      let s = submit_all p.max_queue (start_loop queue p) records in
      let p' = set_queue kind s.queue p in
      (
        ok s.accepted,
        record p' {
          dropped = s.dropped;
          submitted = s.submitted;
          wake = if leb p.max_batch (length s.queue) then true else p.wake;
        },
      )

  -- `_submit`
  unfoldable pub submit : SignalKind → List A → Processor A → Result Bool × Processor A
  unfolding submit_to queue?
  submit kind records p = if p.closed then (ok false, p) else elim (queue? kind p) [
    | none ↦ (raised key_error, p)
    | some queue ↦ submit_to kind records queue p
  ]

  unfoldable pub submit_metrics : List A → Processor A → Result Bool × Processor A
  unfolding submit
  submit_metrics = submit metrics

  unfoldable pub submit_logs : List A → Processor A → Result Bool × Processor A
  unfolding submit
  submit_logs = submit logs

  unfoldable pub submit_traces : List A → Processor A → Result Bool × Processor A
  unfolding submit
  submit_traces = submit traces
