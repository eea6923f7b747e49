-- ===== src/Writer/Invariant.antt =====
-- What the queue of the log writer keeps, whatever the calls and however the worker runs between them
-- (src/comfyui_docker_helper/container/runtime/log_storage.py).
use comfyui_docker_helper.Prelude.{
  ℕ, ◌+◌, ◌-◌, ◌/◌, ◌≤◌, Bool, true, false, List, [], ◌∷◌, length, total, Option, none, some,
  split_last, arith, ◌≡◌, ◌≢◌, refl, sym, subst, ap, ◌∙◌, Bool-cases, inl, inr, ◌⊎◌,
}
use comfyui_docker_helper.History.{log_block_bytes}
use comfyui_docker_helper.History.Windows.{window}
use comfyui_docker_helper.Storage.{LogStorageFailure}
use comfyui_docker_helper.Writer.{
  log_file_queue_items, QueuedBytes, Worker, waiting, appending, syncing, synced, stopped, crashed,
  AsyncLogWriter, fail_locked, fill_last, fail_after,
}
use comfyui_docker_helper.Writer.Blocks.{Block, Pending, size_of}
use comfyui_docker_helper.Writer.Queue.{fill_last-Extended}

-- The bytes that the worker is appending.
abbrev pub in_flight : Worker → ℕ
in_flight (appending item) = length item.bytes
in_flight other = 0

-- Nothing went wrong, and the close was not aborted.
abbrev pub Sound : AsyncLogWriter → Type 0
Sound w = (w.failure ≡ none) × (w.abort ≡ false)

-- An item that the worker appends is the stream from what the store has acknowledged on.
abbrev pub WorkerKept : (ℕ → ℕ) → ℕ → Bool → List QueuedBytes → Worker → Type 0
WorkerKept f acknowledged closing queue (appending item) =
    Block f item × (item.start ≡ acknowledged)
WorkerKept f acknowledged closing queue waiting = Unit
WorkerKept f acknowledged closing queue syncing = (closing ≡ true) × (queue ≡ [])
WorkerKept f acknowledged closing queue synced = (closing ≡ true) × (queue ≡ [])
WorkerKept f acknowledged closing queue stopped = Unit
WorkerKept f acknowledged closing queue crashed = ⊥

abbrev pub observations : Option LogStorageFailure → List LogStorageFailure
observations none = []
observations (some r) = r ∷ []

pub record WriterInv (f : ℕ → ℕ) (w : AsyncLogWriter) : Type 0 where
  pub worker : WorkerKept f w.acknowledged w.closing w.queue w.worker
  pub pending : Sound w → Pending f (w.acknowledged + in_flight w.worker) w.next w.queue
  pub counted : Sound w → w.queued_bytes ≡ in_flight w.worker + total size_of w.queue
  pub bytes : w.queued_bytes ≤ w.limit
  pub items : length w.queue ≤ log_file_queue_items
  pub aborted : w.abort ≡ true → w.closing ≡ true
  pub once : w.observed ≡ observations w.failure

-- What the worker relies on stays where the queue is emptied or as it was.
pub worker_kept :
    (f : ℕ → ℕ) (k : Worker) (n : ℕ) (closing next_closing : Bool)
    (queue next_queue : List QueuedBytes)
    → (closing ≡ true → next_closing ≡ true)
    → (closing ≡ true → queue ≡ [] → next_queue ≡ [])
    → WorkerKept f n closing queue k
    → WorkerKept f n next_closing next_queue k
worker_kept f waiting n closing next_closing queue next_queue c q h = tt
worker_kept f (appending item) n closing next_closing queue next_queue c q h = h
worker_kept f syncing n closing next_closing queue next_queue c q (shut, nothing) =
    (c shut, q shut nothing)
worker_kept f synced n closing next_closing queue next_queue c q (shut, nothing) =
    (c shut, q shut nothing)
worker_kept f stopped n closing next_closing queue next_queue c q h = tt
worker_kept f crashed n closing next_closing queue next_queue c q h = h

fail_after-Inv :
    (f : ℕ → ℕ) (o : Option LogStorageFailure) (reason : LogStorageFailure) (w : AsyncLogWriter)
    → w.failure ≡ o
    → WriterInv f w
    → WriterInv f (fail_after o reason w)
fail_after-Inv f none reason w e inv =
    let said = inv.once in
    let before : w.observed ≡ [] = said ∙ ap observations e in
    record {
      worker =
          worker_kept f w.worker w.acknowledged w.closing w.closing w.queue [] (λ c. c)
            (λ c q. refl) inv.worker;
      pending = λ s. absurd (cc (s.0));
      counted = λ s. absurd (cc (s.0));
      bytes = inv.bytes;
      items = omega arith;
      aborted = inv.aborted;
      once = ap (λ r. reason ∷ r) before;
    }
fail_after-Inv f (some r) reason w e inv = record {
  worker =
      worker_kept f w.worker w.acknowledged w.closing w.closing w.queue [] (λ c. c) (λ c q. refl)
        inv.worker;
  pending = λ s. absurd (cc (e, s.0));
  counted = λ s. absurd (cc (e, s.0));
  bytes = inv.bytes;
  items = omega arith;
  aborted = inv.aborted;
  once = inv.once;
}

pub fail_locked-Inv :
    (f : ℕ → ℕ) (reason : LogStorageFailure) (w : AsyncLogWriter)
    → WriterInv f w
    → WriterInv f (fail_locked reason w)
unfolding fail_locked
fail_locked-Inv f reason w inv = fail_after-Inv f w.failure reason w refl inv

fail_after_failed :
    (o : Option LogStorageFailure) (reason : LogStorageFailure) (w : AsyncLogWriter)
    → w.failure ≡ o
    → (fail_after o reason w).failure ≢ none
fail_after_failed none reason w e h = cc h
fail_after_failed (some r) reason w e h = cc (e, h)

pub fail_locked_failed :
    (reason : LogStorageFailure) (w : AsyncLogWriter) → (fail_locked reason w).failure ≢ none
unfolding fail_locked
fail_locked_failed reason w = fail_after_failed w.failure reason w refl

-- The worker has stopped.
pub stopped-Inv :
    (f : ℕ → ℕ) (w : AsyncLogWriter) (n : ℕ)
    → ((w.failure ≢ none) ⊎ (w.abort ≡ true))
    → WriterInv f w
    → WriterInv f (record w { worker = stopped; acknowledged = n })
stopped-Inv f w n why inv = record {
  worker = tt;
  pending = λ s. absurd (unsound s);
  counted = λ s. absurd (unsound s);
  bytes = inv.bytes;
  items = inv.items;
  aborted = inv.aborted;
  once = inv.once;
}
  where
    unsound : Sound w → ⊥
    unsound s = elim why [ inl failed ↦ failed s.0 | inr aborted ↦ cc (aborted, s.1) ]

pub enqueued-Inv :
    (f : ℕ → ℕ) (start : ℕ) (bytes : List ℕ) (w : AsyncLogWriter)
    → bytes ≡ window f start (length bytes)
    → start ≡ w.next
    → w.failure ≡ none
    → w.closing ≡ false
    → w.queued_bytes + length bytes ≤ w.limit
    → length w.queue + (length bytes + log_block_bytes - 1) / log_block_bytes ≤ log_file_queue_items
    → WriterInv f w
    → WriterInv f (record w {
      next = w.next + length bytes;
      queued_bytes = w.queued_bytes + length bytes;
      queue = fill_last (split_last w.queue) w.queue start bytes;
    })
enqueued-Inv f start bytes w content at good not_closing room space inv =
    let low = w.acknowledged + in_flight w.worker in
    let running : w.abort ≡ false = elim (Bool-cases w.abort) [
      | inl a ↦ absurd (cc (inv.aborted a, not_closing))
      | inr e ↦ e
    ] in
    let sound : Sound w = (good, running) in
    let counted = inv.counted sound in
    let extended =
      fill_last-Extended f low start bytes content w.queue
        (subst (λ k. Pending f low k w.queue) (sym at) (inv.pending sound)) in
    record {
      worker =
          worker_kept f w.worker w.acknowledged w.closing w.closing w.queue
            (fill_last (split_last w.queue) w.queue start bytes) (λ c. c)
            (λ c q. absurd (cc (c, not_closing))) inv.worker;
      pending = λ s.
          subst (λ k. Pending f low k (fill_last (split_last w.queue) w.queue start bytes))
            (ap (λ k. k + length bytes) at) extended.pending;
      counted = λ s. omega (arith, extended.size);
      bytes = room;
      items = omega (arith, extended.few);
      aborted = inv.aborted;
      once = inv.once;
    }
