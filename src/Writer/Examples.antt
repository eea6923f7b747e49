-- ===== src/Writer/Examples.antt =====
-- The writer's theorem at concrete calls
-- (src/comfyui_docker_helper/container/runtime/log_storage.py).
use comfyui_docker_helper.Prelude.{ℕ, true, false, List, [], ◌∷◌, some, none, split_last, ◌≡◌, refl}
use comfyui_docker_helper.Writer.{
  waiting, synced, AsyncLogWriter, new_writer, cut_blocks, enqueue, close_writer, done, take_item,
  append_item, sync_store, work, WriterCall, call_enqueue, call_close, call_work, call_writer,
  call_all_writer,
}
use comfyui_docker_helper.Writer.Invariant.{Sound, WriterInv}
use comfyui_docker_helper.Writer.Guarantees.{run-WriterInv}

abbrev some_stream : ℕ → ℕ
some_stream i = i

abbrev small_writer : AsyncLogWriter
small_writer = record {
  limit = 8;
  queue = [];
  queued_bytes = 0;
  next = 4;
  failure = none;
  closing = false;
  abort = false;
  worker = waiting;
  acknowledged = 4;
  observed = [];
}

abbrev some_calls : List WriterCall
some_calls =
    call_enqueue 4 (4 ∷ 5 ∷ [])
    ∷ call_enqueue 6 (6 ∷ [])
    ∷ call_work done
    ∷ call_enqueue 7 (7 ∷ 8 ∷ [])
    ∷ call_close false
    ∷ call_work done
    ∷ call_work done
    ∷ call_work done
    ∷ call_work done
    ∷ call_work done
    ∷ []

small_writer_is_new : new_writer 8 4 ≡ some small_writer
unfolding new_writer
small_writer_is_new = refl

some_calls_run :
    call_all_writer some_calls small_writer
    ≡ record small_writer { next = 9; acknowledged = 9; closing = true; worker = synced }
unfolding call_all_writer call_writer enqueue cut_blocks split_last work take_item append_item
    sync_store close_writer
some_calls_run = refl

run-WriterInv_example :
    WriterInv some_stream (call_all_writer some_calls small_writer)
    × ((call_all_writer some_calls small_writer).worker ≡ synced
        → Sound (call_all_writer some_calls small_writer)
        → (call_all_writer some_calls small_writer).acknowledged
          ≡ (call_all_writer some_calls small_writer).next)
run-WriterInv_example =
    run-WriterInv some_stream 8 4 small_writer some_calls small_writer_is_new
      (refl, (refl, (tt, (refl, (tt, (tt, (tt, (tt, (tt, (tt, tt))))))))))
