-- ===== src/History/Examples.antt =====
-- The memory history's theorems at concrete calls
-- (src/comfyui_docker_helper/container/runtime/log_history.py).
use comfyui_docker_helper.Prelude.{List, [], ◌∷◌, some, none, ◌≡◌, refl}
use comfyui_docker_helper.History.{
  MemoryHistory, new_history, append, append_next, evict, pop_keys, pop, put, trim_first, fill,
  read, read_blocks, read_part, snapshot, bytes_read, history_unavailable,
}
use comfyui_docker_helper.History.Refinement.{
  HistoryCall, call_append, call_read, call_snapshot, published, not_sequential, looked, viewed,
  call_history, call_all, call_all_publication, history_refines,
}

abbrev small_history : MemoryHistory
small_history = record { max_size = 4; start = 16382; end = 16382; blocks = λ k. none }

abbrev some_calls : List HistoryCall
some_calls =
    call_append 16382 (65 ∷ 66 ∷ 67 ∷ [])
    ∷ call_append 16385 (10 ∷ 68 ∷ 69 ∷ [])
    ∷ call_read 16384 4
    ∷ call_read 16383 2
    ∷ call_append 9 (1 ∷ [])
    ∷ call_snapshot
    ∷ []

small_history_is_new : new_history 4 16382 ≡ some small_history
unfolding new_history
small_history_is_new = refl

some_calls_run :
    call_all some_calls small_history
    ≡ published
      ∷ published
      ∷ looked (bytes_read (67 ∷ 10 ∷ 68 ∷ 69 ∷ []))
      ∷ looked history_unavailable
      ∷ not_sequential
      ∷ viewed (record { start = 16384; end = 16388 })
      ∷ []
unfolding call_all call_history append append_next evict pop_keys pop put trim_first fill read
    read_blocks read_part snapshot
some_calls_run = refl

history_refines_example :
    call_all some_calls small_history
    ≡ call_all_publication some_calls (record { capacity = 4; base = 16382; stream = [] })
history_refines_example = history_refines 4 16382 small_history some_calls small_history_is_new
