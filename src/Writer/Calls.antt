-- ===== src/Writer/Calls.antt =====
-- What the publisher's and the closer's calls keep of the log writer
-- (src/comfyui_docker_helper/container/runtime/log_storage.py).
use comfyui_docker_helper.Prelude.{
  ℕ, ◌+◌, ◌-◌, ◌/◌, ◌≤◌, Bool, true, false, not, List, [], length, total, Option, none, some,
  is_some, if◌then◌else◌, ltb, ◌==◌, ◌||◌, arith, ◌≡◌, refl, sym, subst, ap, ◌∙◌,
}
use comfyui_docker_helper.History.{log_block_bytes}
use comfyui_docker_helper.History.Windows.{window}
use comfyui_docker_helper.Storage.{LogStorageFailure, queue_failure}
use comfyui_docker_helper.Writer.{
  log_file_queue_items, QueuedBytes, AsyncLogWriter, Enqueued, enqueue, close_writer, abort_close,
}
use comfyui_docker_helper.Writer.Blocks.{Pending, size_of}
use comfyui_docker_helper.Writer.Invariant.{
  in_flight, WriterInv, worker_kept, fail_locked-Inv, enqueued-Inv,
}

pub if-Inv :
    (f : ℕ → ℕ) (b : Bool) (x y : AsyncLogWriter)
    → (b ≡ true → WriterInv f x)
    → (b ≡ false → WriterInv f y)
    → WriterInv f (if b then x else y)
if-Inv f true x y v w = v refl
if-Inv f false x y v w = w refl

if-Inv-result :
    (f : ℕ → ℕ) (b : Bool) (x y : Enqueued × AsyncLogWriter)
    → WriterInv f x.1
    → (b ≡ false → WriterInv f y.1)
    → WriterInv f (if b then x else y).1
if-Inv-result f true x y v w = v
if-Inv-result f false x y v w = w refl

pub enqueue-Inv :
    (f : ℕ → ℕ) (start : ℕ) (bytes : List ℕ) (w : AsyncLogWriter)
    → bytes ≡ window f start (length bytes)
    → WriterInv f w
    → WriterInv f (enqueue start bytes w).1
unfolding enqueue
enqueue-Inv f start bytes w content inv =
    let blocks = (length bytes + log_block_bytes - 1) / log_block_bytes in
    if-Inv-result f (is_some w.failure || w.closing) _ _ inv (λ usable.
      if-Inv-result f (not (start == w.next)) _ _ inv (λ sequential.
        if-Inv-result f (length bytes == 0) _ _ inv (λ some_data.
          if-Inv-result f
            (ltb w.limit (w.queued_bytes + length bytes)
              || ltb log_file_queue_items (length w.queue + blocks))
            _ _ (fail_locked-Inv f queue_failure w inv)
            (λ room.
              enqueued-Inv f start bytes w content (ground arith)
                (no_failure w.failure w.closing usable) (ground arith) (ground arith) (ground arith)
                inv))))
  where
    no_failure : (o : Option LogStorageFailure) (b : Bool) → (is_some o || b) ≡ false → o ≡ none
    no_failure none b e = refl
    no_failure (some r) b e = absurd (cc e)

pub close_writer-Inv :
    (f : ℕ → ℕ) (abort : Bool) (w : AsyncLogWriter)
    → WriterInv f w
    → WriterInv f (close_writer abort w)
unfolding close_writer
close_writer-Inv f abort w inv =
    let queue = if w.abort || abort then [] else w.queue in
    record {
      worker =
          worker_kept f w.worker w.acknowledged w.closing true w.queue queue (λ c. refl)
            (λ c q. ground (arith, q)) inv.worker;
      pending = λ s.
          let same : queue ≡ w.queue = ap (λ b. if b then [] else w.queue) s.1 in
          subst (Pending f (w.acknowledged + in_flight w.worker) w.next) (sym same)
            (inv.pending (s.0, not_before w.abort abort s.1));
      counted = λ s.
          let same : queue ≡ w.queue = ap (λ b. if b then [] else w.queue) s.1 in
          inv.counted (s.0, not_before w.abort abort s.1)
          ∙ ap (λ q. in_flight w.worker + total size_of q) (sym same);
      bytes = inv.bytes;
      items = shorter (w.abort || abort) w.queue inv.items;
      aborted = λ a. refl;
      once = inv.once;
    }
  where
    not_before : (a b : Bool) → (a || b) ≡ false → a ≡ false
    not_before a b e = ground arith

    shorter :
        (b : Bool) (queue : List QueuedBytes)
        → length queue ≤ log_file_queue_items
        → length (if b then [] else queue) ≤ log_file_queue_items
    shorter true queue le = omega arith
    shorter false queue le = le

pub abort_close-Inv :
    (f : ℕ → ℕ) (w : AsyncLogWriter)
    → w.closing ≡ true
    → WriterInv f w
    → WriterInv f (abort_close w)
unfolding abort_close
abort_close-Inv f w closing inv = record {
  worker =
      worker_kept f w.worker w.acknowledged w.closing w.closing w.queue [] (λ c. c) (λ c q. refl)
        inv.worker;
  pending = λ s. absurd (cc (s.1));
  counted = λ s. absurd (cc (s.1));
  bytes = inv.bytes;
  items = omega arith;
  aborted = λ a. closing;
  once = inv.once;
}
