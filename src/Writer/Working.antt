-- ===== src/Writer/Working.antt =====
-- What the worker thread keeps of the log writer
-- (src/comfyui_docker_helper/container/runtime/log_storage.py).
use comfyui_docker_helper.Prelude.{
  ℕ, ◌+◌, min, Bool, true, false, not, List, [], ◌∷◌, length, total, Option, none, some, is_some,
  ◌==◌, ◌||◌, arith, ◌≡◌, ◌≢◌, refl, subst, ap, ◌∙◌, inl, inr, ◌⊎◌,
}
use comfyui_docker_helper.Storage.{LogStorageFailure}
use comfyui_docker_helper.Writer.{
  QueuedBytes, Worker, waiting, appending, syncing, synced, stopped, crashed, AsyncLogWriter,
  fail_locked, take_first, after_append, after_sync, work_at, StoreAnswer, done, failed_after,
  take_item, append_item, sync_store,
}
use comfyui_docker_helper.Writer.Blocks.{Pending, size_of}
use comfyui_docker_helper.Writer.Invariant.{
  in_flight, WorkerKept, WriterInv, fail_locked-Inv, fail_locked_failed, stopped-Inv,
}
use comfyui_docker_helper.Writer.Calls.{if-Inv}

take_first-Inv :
    (f : ℕ → ℕ) (queue : List QueuedBytes) (w : AsyncLogWriter)
    → w.queue ≡ queue
    → w.worker ≡ waiting
    → w.abort ≡ false
    → w.failure ≡ none
    → WriterInv f w
    → WriterInv f (take_first queue w)
take_first-Inv f [] w q k running good inv =
    let at : in_flight w.worker ≡ 0 = ap in_flight k in
    if-Inv f w.closing _ _
      (λ closing. record {
        worker = (closing, q);
        pending =
            λ s. subst (λ n. Pending f (w.acknowledged + n) w.next w.queue) at (inv.pending s);
        counted = λ s. inv.counted s ∙ ap (λ n. n + total size_of w.queue) at;
        bytes = inv.bytes;
        items = inv.items;
        aborted = inv.aborted;
        once = inv.once;
      })
      (λ not_closing. inv)
take_first-Inv f (item ∷ rest) w q k running good inv =
    let at : in_flight w.worker ≡ 0 = ap in_flight k in
    let all =
      subst (Pending f (w.acknowledged + in_flight w.worker) w.next) q
        (inv.pending (good, running)) in
    let begins : item.start ≡ w.acknowledged = omega (arith, all.1, at) in
    record {
      worker = (all.0, begins);
      pending = λ s. subst (λ n. Pending f (n + length item.bytes) w.next rest) begins all.2;
      counted = λ s. inv.counted s ∙ omega (arith, at, ap (total size_of) q);
      bytes = inv.bytes;
      items = omega (arith, ap length q, inv.items);
      aborted = inv.aborted;
      once = inv.once;
    }

take_item-Inv :
    (f : ℕ → ℕ) (w : AsyncLogWriter)
    → w.worker ≡ waiting
    → WriterInv f w
    → WriterInv f (take_item w)
unfolding take_item
take_item-Inv f w k inv =
    if-Inv f (w.abort || is_some w.failure) _ _
      (λ bad. stopped-Inv f w w.acknowledged (why w.failure w.abort bad) inv)
      (λ good.
        take_first-Inv f w.queue w refl k (running w.failure w.abort good)
          (sound w.failure w.abort good) inv)
  where
    why :
        (o : Option LogStorageFailure) (b : Bool)
        → (b || is_some o) ≡ true
        → (o ≢ none) ⊎ (b ≡ true)
    why o true e = inr refl
    why none false e = absurd (cc e)
    why (some r) false e = inl (λ h. cc h)

    running : (o : Option LogStorageFailure) (b : Bool) → (b || is_some o) ≡ false → b ≡ false
    running o b e = ground arith

    sound : (o : Option LogStorageFailure) (b : Bool) → (b || is_some o) ≡ false → o ≡ none
    sound none b e = refl
    sound (some r) b e = absurd (ground arith)

after_append-Inv :
    (f : ℕ → ℕ) (answer : StoreAnswer) (item : QueuedBytes) (w : AsyncLogWriter)
    → w.worker ≡ appending item
    → WriterInv f w
    → WriterInv f (after_append answer item w)
after_append-Inv f done item w k inv =
    let at : in_flight w.worker ≡ length item.bytes = ap in_flight k in
    record {
      worker = tt;
      pending = λ s. subst (λ n. Pending f n w.next w.queue) (omega arith) (inv.pending s);
      counted = λ s. omega (arith, inv.counted s, at);
      bytes = omega (arith, inv.bytes);
      items = inv.items;
      aborted = inv.aborted;
      once = inv.once;
    }
after_append-Inv f (failed_after count reason) item w k inv =
    stopped-Inv f (fail_locked reason w) (w.acknowledged + min count (length item.bytes))
      (inl (fail_locked_failed reason w)) (fail_locked-Inv f reason w inv)

append_item-Inv :
    (f : ℕ → ℕ) (answer : StoreAnswer) (item : QueuedBytes) (w : AsyncLogWriter)
    → w.worker ≡ appending item
    → WriterInv f w
    → WriterInv f (append_item answer item w)
unfolding append_item
append_item-Inv f answer item w k inv =
    let kept = subst (WorkerKept f w.acknowledged w.closing w.queue) k inv.worker in
    let at : item.start ≡ w.acknowledged = kept.1 in
    if-Inv f (not (item.start == w.acknowledged)) _ _ (λ e. absurd (ground arith))
      (λ e. after_append-Inv f answer item w k inv)

after_sync-Inv :
    (f : ℕ → ℕ) (answer : StoreAnswer) (w : AsyncLogWriter)
    → w.worker ≡ syncing
    → WriterInv f w
    → WriterInv f (after_sync answer w)
after_sync-Inv f done w k inv =
    let at : in_flight w.worker ≡ 0 = ap in_flight k in
    record {
      worker = subst (WorkerKept f w.acknowledged w.closing w.queue) k inv.worker;
      pending = λ s. subst (λ n. Pending f (w.acknowledged + n) w.next w.queue) at (inv.pending s);
      counted = λ s. inv.counted s ∙ ap (λ n. n + total size_of w.queue) at;
      bytes = inv.bytes;
      items = inv.items;
      aborted = inv.aborted;
      once = inv.once;
    }
after_sync-Inv f (failed_after count reason) w k inv =
    let failed = fail_locked-Inv f reason w inv in
    stopped-Inv f (fail_locked reason w) (fail_locked reason w).acknowledged
      (inl (fail_locked_failed reason w)) failed

sync_store-Inv :
    (f : ℕ → ℕ) (answer : StoreAnswer) (w : AsyncLogWriter)
    → w.worker ≡ syncing
    → WriterInv f w
    → WriterInv f (sync_store answer w)
unfolding sync_store
sync_store-Inv f answer w k inv =
    if-Inv f w.abort _ _ (λ a. stopped-Inv f w w.acknowledged (inr a) inv)
      (λ e. after_sync-Inv f answer w k inv)

pub work_at-Inv :
    (f : ℕ → ℕ) (k : Worker) (answer : StoreAnswer) (w : AsyncLogWriter)
    → w.worker ≡ k
    → WriterInv f w
    → WriterInv f (work_at k answer w)
work_at-Inv f waiting answer w e inv = take_item-Inv f w e inv
work_at-Inv f (appending item) answer w e inv = append_item-Inv f answer item w e inv
work_at-Inv f syncing answer w e inv = sync_store-Inv f answer w e inv
work_at-Inv f synced answer w e inv = inv
work_at-Inv f stopped answer w e inv = inv
work_at-Inv f crashed answer w e inv = inv
