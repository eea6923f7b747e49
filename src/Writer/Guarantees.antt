-- ===== src/Writer/Guarantees.antt =====
-- What the log writer promises, whatever the calls and however the worker runs between them
-- (src/comfyui_docker_helper/container/runtime/log_storage.py).
use comfyui_docker_helper.Prelude.{
  ℕ, ◌+◌, false, List, [], ◌∷◌, length, All, none, some, ◌==◌, arith, ◌≡◌, refl, subst, ap,
  Bool-cases, inl, inr,
}
use comfyui_docker_helper.History.Windows.{window}
use comfyui_docker_helper.Writer.{
  waiting, synced, AsyncLogWriter, new_writer, work, WriterCall, call_enqueue, call_close,
  call_abort, call_work, call_writer, call_all_writer,
}
use comfyui_docker_helper.Writer.Blocks.{Pending}
use comfyui_docker_helper.Writer.Invariant.{in_flight, Sound, WorkerKept, WriterInv}
use comfyui_docker_helper.Writer.Calls.{if-Inv, enqueue-Inv, close_writer-Inv, abort_close-Inv}
use comfyui_docker_helper.Writer.Working.{work_at-Inv}

-- What is enqueued is of the stream.
abbrev pub OfStream : (ℕ → ℕ) → WriterCall → Type 0
OfStream f (call_enqueue start bytes) = bytes ≡ window f start (length bytes)
OfStream f other = Unit

call_writer-Inv :
    (f : ℕ → ℕ) (c : WriterCall) (w : AsyncLogWriter)
    → OfStream f c
    → WriterInv f w
    → WriterInv f (call_writer c w)
unfolding call_writer work
call_writer-Inv f (call_enqueue start bytes) w content inv = enqueue-Inv f start bytes w content inv
call_writer-Inv f (call_close abort) w content inv = close_writer-Inv f abort w inv
call_writer-Inv f call_abort w content inv =
    if-Inv f w.closing _ _ (λ closing. abort_close-Inv f w closing inv) (λ e. inv)
call_writer-Inv f (call_work answer) w content inv = work_at-Inv f w.worker answer w refl inv

call_all_writer-Inv :
    (f : ℕ → ℕ) (calls : List WriterCall) (w : AsyncLogWriter)
    → All (OfStream f) calls
    → WriterInv f w
    → WriterInv f (call_all_writer calls w)
unfolding call_all_writer
call_all_writer-Inv f [] w content inv = inv
call_all_writer-Inv f (c ∷ calls) w (content, more) inv =
    call_all_writer-Inv f calls (call_writer c w) more (call_writer-Inv f c w content inv)

new_writer-Inv :
    (f : ℕ → ℕ) (limit acknowledged : ℕ) (w : AsyncLogWriter)
    → new_writer limit acknowledged ≡ some w
    → WriterInv f w
unfolding new_writer
new_writer-Inv f limit acknowledged w e = elim (Bool-cases (limit == 0)) [
  | inl z ↦ absurd (ground arith)
  | inr pos ↦ subst (WriterInv f) (ground arith) (fresh limit acknowledged)
]
  where
    fresh :
        (n m : ℕ)
        → WriterInv f (record {
          limit = n;
          queue = [];
          queued_bytes = 0;
          next = m;
          failure = none;
          closing = false;
          abort = false;
          worker = waiting;
          acknowledged = m;
          observed = [];
        })
    fresh n m = record {
      worker = tt;
      pending = λ s. omega arith;
      counted = λ s. omega arith;
      bytes = omega arith;
      items = omega arith;
      aborted = λ a. absurd (cc a);
      once = refl;
    }

all_stored :
    (f : ℕ → ℕ) (w : AsyncLogWriter)
    → WriterInv f w
    → w.worker ≡ synced
    → Sound w
    → w.acknowledged ≡ w.next
all_stored f w inv k sound =
    let kept = subst (WorkerKept f w.acknowledged w.closing w.queue) k inv.worker in
    let at : in_flight w.worker ≡ 0 = ap in_flight k in
    let whole =
      subst (Pending f (w.acknowledged + in_flight w.worker) w.next) kept.1 (inv.pending sound) in
    omega (arith, whole, at)

-- Whatever is called on a new writer and however the worker runs in between: the store is never handed
-- an item that does not begin where it ends, so the thread never ends in an error; while nothing has
-- failed or been aborted, the item in flight and the queue are exactly the accepted bytes that the store
-- has not acknowledged, in blocks that are neither empty nor larger than 16 KiB; the bytes and the items
-- stay within their limits; the observer hears of the first failure, and of it alone; and when the
-- worker has synchronized the store, all that was accepted is acknowledged.
pub run-WriterInv :
    (f : ℕ → ℕ) (limit acknowledged : ℕ) (w : AsyncLogWriter) (calls : List WriterCall)
    → new_writer limit acknowledged ≡ some w
    → All (OfStream f) calls
    → WriterInv f (call_all_writer calls w)
      × ((call_all_writer calls w).worker ≡ synced
          → Sound (call_all_writer calls w)
          → (call_all_writer calls w).acknowledged ≡ (call_all_writer calls w).next)
run-WriterInv f limit acknowledged w calls e content =
    let inv = call_all_writer-Inv f calls w content (new_writer-Inv f limit acknowledged w e) in
    (inv, λ k sound. all_stored f (call_all_writer calls w) inv k sound)
