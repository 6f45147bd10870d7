-- ===== src/Processor/Submit.antt =====
-- What `_submit` does to a queue and to the counters, against the newest `max_queue` records.
use asyncio_otlp_client.Base.{
  ℕ, ◌+◌, ◌-◌, ◌≤◌, ◌≡◌, ◌&&◌, List, [], ◌∷◌, ◌++◌, leb, length, keep_last, length-append,
  keep_last-keep_last, length-keep_last, arith, ap, ◌∙◌, sym, keep_last_short, min,
}
use asyncio_otlp_client.Processor.Defs.{Loop, append, submit_one, submit_all}
use mathlib.Core.List.{append_assoc, append-nil}

module _ {A : Type 0} where
  pub append_lem :
      (maxlen : ℕ) (q : List A) (x : A)
      → length q ≤ maxlen
      → append maxlen q x ≡ keep_last maxlen (q ++ (x ∷ []))
  unfolding append
  append_lem maxlen q x h = ground (arith, length-append q (x ∷ []))

  submit_one-queue :
      (maxlen : ℕ) (s : Loop A) (x : A)
      → length s.queue ≤ maxlen
      → (submit_one maxlen s x).queue ≡ keep_last maxlen (s.queue ++ (x ∷ []))
  unfolding submit_one
  submit_one-queue maxlen s x h = append_lem maxlen s.queue x h

  submit_one-length :
      (maxlen : ℕ) (s : Loop A) (x : A)
      → length s.queue ≤ maxlen
      → length (submit_one maxlen s x).queue ≡ min maxlen (length s.queue + 1)
  submit_one-length maxlen s x h =
      ap length (submit_one-queue maxlen s x h)
      ∙ omega (arith, length-keep_last maxlen (s.queue ++ (x ∷ [])), length-append s.queue (x ∷ []))

  submit_one-counts :
      (maxlen : ℕ) (s : Loop A) (x : A)
      → length s.queue ≤ maxlen
      → let s' = submit_one maxlen s x in
        (s'.dropped ≡ s.dropped + (length s.queue + 1 - maxlen))
        × (s'.submitted ≡ s.submitted + 1)
        × (s'.accepted ≡ (s.accepted && leb (length s.queue + 1) maxlen))
  unfolding submit_one
  submit_one-counts maxlen s x h = ground arith

  -- The queue keeps the newest `maxlen` records, each of the others counts as dropped, and
  -- `accepted` stays as it was exactly if all fit.
  pub submit_all-queue :
      (maxlen : ℕ) (s : Loop A) (xs : List A)
      → length s.queue ≤ maxlen
      → (submit_all maxlen s xs).queue ≡ keep_last maxlen (s.queue ++ xs)
  unfolding submit_all
  submit_all-queue maxlen s [] h =
      sym (ap (keep_last maxlen) (append-nil s.queue) ∙ keep_last_short maxlen s.queue h)
  submit_all-queue maxlen s (x ∷ xs) h =
      submit_all-queue maxlen (submit_one maxlen s x) xs
        (omega (arith, submit_one-length maxlen s x h))
      ∙ ap (λ (q : List A). keep_last maxlen (q ++ xs)) (submit_one-queue maxlen s x h)
      ∙ keep_last-keep_last maxlen (s.queue ++ (x ∷ [])) xs
      ∙ ap (keep_last maxlen) (append_assoc s.queue (x ∷ []) xs)

  pub submit_all-counts :
      (maxlen : ℕ) (s : Loop A) (xs : List A)
      → length s.queue ≤ maxlen
      → let s' = submit_all maxlen s xs in
        (s'.dropped ≡ s.dropped + (length s.queue + length xs - maxlen))
        × (s'.submitted ≡ s.submitted + length xs)
        × (s'.accepted ≡ (s.accepted && leb (length s.queue + length xs) maxlen))
  unfolding submit_all
  submit_all-counts maxlen s [] h = ground arith
  submit_all-counts maxlen s (x ∷ xs) h = ground (
    arith,
    submit_one-length maxlen s x h,
    submit_one-counts maxlen s x h,
    submit_all-counts maxlen (submit_one maxlen s x) xs,
  )
