-- ===== src/Writer.antt =====
-- src/comfyui_docker_helper/container/runtime/log_storage.py (AsyncLogWriter): the bounded queue between
-- the publisher of the runtime's output and the raw files. A call under the condition is one step, and so
-- is each stretch of the worker thread between two waits. The store is its acknowledged offset: an
-- append of an item succeeds, or raises a `LogStorageError` after some of it.
pub mod Blocks
pub mod Queue
pub mod Invariant
pub mod Calls
pub mod Working
pub mod Guarantees
mod Examples
use comfyui_docker_helper.Prelude.{
  ℕ, zero, suc, ◌+◌, ◌-◌, ◌/◌, min, Bool, true, false, not, List, [], ◌∷◌, ◌++◌, length, take, drop,
  Option, none, some, is_some, if◌then◌else◌, ltb, leb, ◌==◌, ◌||◌, split_last,
}
use comfyui_docker_helper.History.{log_block_bytes}
use comfyui_docker_helper.Storage.{LogStorageFailure, queue_failure}

abbrev pub log_file_queue_items : ℕ
log_file_queue_items = 1024

pub record QueuedBytes : Type 0 where
  pub start : ℕ
  pub bytes : List ℕ

-- Where the worker thread stands.
pub data Worker : Type 0 where
  waiting : Worker
  appending : QueuedBytes → Worker
  syncing : Worker
  synced : Worker
  stopped : Worker
  crashed : Worker

-- `observed` are the calls of the failure observer, the latest first.
pub record AsyncLogWriter : Type 0 where
  pub limit : ℕ
  pub queue : List QueuedBytes
  pub queued_bytes : ℕ
  pub next : ℕ
  pub failure : Option LogStorageFailure
  pub closing : Bool
  pub abort : Bool
  pub worker : Worker
  pub acknowledged : ℕ
  pub observed : List LogStorageFailure

-- `__init__`; none is the error for a capacity that is not positive.
unfoldable pub new_writer : ℕ → ℕ → Option AsyncLogWriter
new_writer limit acknowledged =
    if limit == 0
    then none
    else some (record {
      limit = limit;
      queue = [];
      queued_bytes = 0;
      next = acknowledged;
      failure = none;
      closing = false;
      abort = false;
      worker = waiting;
      acknowledged = acknowledged;
      observed = [];
    })

-- `_fail_locked`, after the failure that there is.
abbrev pub fail_after :
    Option LogStorageFailure → LogStorageFailure → AsyncLogWriter → AsyncLogWriter
fail_after none reason w = record w {
  failure = some reason;
  queue = [];
  observed = reason ∷ w.observed;
}
fail_after (some r) reason w = record w { queue = [] }

unfoldable pub fail_locked : LogStorageFailure → AsyncLogWriter → AsyncLogWriter
fail_locked reason w = fail_after w.failure reason w

-- The loop of `enqueue` over the blocks of the data, on fuel.
unfoldable pub cut_blocks : ℕ → ℕ → ℕ → List ℕ → List QueuedBytes
cut_blocks block zero start bytes = []
cut_blocks block (suc fuel) start bytes =
    let rest = cut_blocks block fuel (start + block) (drop block bytes) in
    if length bytes == 0 then [] else record { start = start; bytes = take block bytes } ∷ rest

-- The data behind what the last block takes of it, or all of it, in blocks. A turn of the loop takes a
-- byte at least, so the data's length is fuel enough.
abbrev pub fill_last :
    Option (List QueuedBytes × QueuedBytes) → List QueuedBytes → ℕ → List ℕ → List QueuedBytes
fill_last none queue start bytes = queue ++ cut_blocks log_block_bytes (length bytes) start bytes
fill_last (some (before, last)) queue start bytes =
    let count = min (log_block_bytes - length last.bytes) (length bytes) in
    let filled = record last { bytes = last.bytes ++ take count bytes } in
    if ltb (length last.bytes) log_block_bytes
    then before
      ++ (filled
          ∷ cut_blocks log_block_bytes (length (drop count bytes)) (start + count)
              (drop count bytes))
    else queue ++ cut_blocks log_block_bytes (length bytes) start bytes

pub data Enqueued : Type 0 where
  enqueued rejected not_sequential : Enqueued

-- `enqueue`
unfoldable pub enqueue : ℕ → List ℕ → AsyncLogWriter → Enqueued × AsyncLogWriter
enqueue start bytes w =
    let blocks = (length bytes + log_block_bytes - 1) / log_block_bytes in
    if is_some w.failure || w.closing
    then (rejected, w)
    else if not (start == w.next)
    then (not_sequential, w)
    else if length bytes == 0
    then (enqueued, w)
    else if ltb w.limit (w.queued_bytes + length bytes)
        || ltb log_file_queue_items (length w.queue + blocks)
    then (rejected, fail_locked queue_failure w)
    else (
      enqueued,
      record w {
        next = w.next + length bytes;
        queued_bytes = w.queued_bytes + length bytes;
        queue = fill_last (split_last w.queue) w.queue start bytes;
      },
    )

-- The first part of `close`, where `abort` is the deadline or the force that it finds.
unfoldable pub close_writer : Bool → AsyncLogWriter → AsyncLogWriter
close_writer abort w = record w {
  closing = true;
  abort = w.abort || abort;
  queue = if w.abort || abort then [] else w.queue;
}

-- The deadline or the force of `close` while the thread is alive.
unfoldable pub abort_close : AsyncLogWriter → AsyncLogWriter
abort_close w = record w { abort = true; queue = [] }

-- What the store does with an item, or the synchronization.
pub data StoreAnswer : Type 0 where
  done : StoreAnswer
  failed_after : ℕ → LogStorageFailure → StoreAnswer

-- The worker takes an item of the queue, when it is woken.
abbrev pub take_first : List QueuedBytes → AsyncLogWriter → AsyncLogWriter
take_first [] w = if w.closing then record w { worker = syncing } else w
take_first (item ∷ rest) w = record w { worker = appending item; queue = rest }

unfoldable pub take_item : AsyncLogWriter → AsyncLogWriter
take_item w =
    if w.abort || is_some w.failure then record w { worker = stopped } else take_first w.queue w

abbrev pub after_append : StoreAnswer → QueuedBytes → AsyncLogWriter → AsyncLogWriter
after_append done item w = record w {
  worker = waiting;
  acknowledged = w.acknowledged + length item.bytes;
  queued_bytes = w.queued_bytes - length item.bytes;
}
after_append (failed_after count reason) item w = record (fail_locked reason w) {
  worker = stopped;
  acknowledged = w.acknowledged + min count (length item.bytes);
}

-- The store's append of an item that begins where it ends; otherwise the thread ends in an error.
unfoldable pub append_item : StoreAnswer → QueuedBytes → AsyncLogWriter → AsyncLogWriter
append_item answer item w =
    if not (item.start == w.acknowledged)
    then record w { worker = crashed }
    else after_append answer item w

abbrev pub after_sync : StoreAnswer → AsyncLogWriter → AsyncLogWriter
after_sync done w = record w { worker = synced }
after_sync (failed_after count reason) w = record (fail_locked reason w) { worker = stopped }

-- The store's `sync`, unless the close was aborted.
unfoldable pub sync_store : StoreAnswer → AsyncLogWriter → AsyncLogWriter
sync_store answer w = if w.abort then record w { worker = stopped } else after_sync answer w

-- A stretch of `_run` of a worker that stands at `k`.
abbrev pub work_at : Worker → StoreAnswer → AsyncLogWriter → AsyncLogWriter
work_at waiting answer w = take_item w
work_at (appending item) answer w = append_item answer item w
work_at syncing answer w = sync_store answer w
work_at synced answer w = w
work_at stopped answer w = w
work_at crashed answer w = w

unfoldable pub work : StoreAnswer → AsyncLogWriter → AsyncLogWriter
work answer w = work_at w.worker answer w

-- The calls; an abort comes within a close.
pub data WriterCall : Type 0 where
  call_enqueue : ℕ → List ℕ → WriterCall
  call_close : Bool → WriterCall
  call_abort : WriterCall
  call_work : StoreAnswer → WriterCall

unfoldable pub call_writer : WriterCall → AsyncLogWriter → AsyncLogWriter
call_writer (call_enqueue start bytes) w = (enqueue start bytes w).1
call_writer (call_close abort) w = close_writer abort w
call_writer call_abort w = if w.closing then abort_close w else w
call_writer (call_work answer) w = work answer w

unfoldable pub call_all_writer : List WriterCall → AsyncLogWriter → AsyncLogWriter
call_all_writer [] w = w
call_all_writer (c ∷ calls) w = call_all_writer calls (call_writer c w)
