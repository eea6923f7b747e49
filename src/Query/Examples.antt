-- ===== src/Query/Examples.antt =====
-- The query's theorems at a concrete query
-- (src/comfyui_docker_helper/container/runtime/logging.py and log_query.py).
use comfyui_docker_helper.Prelude.{
  ℕ, ◌+◌, ◌≤◌, true, false, List, [], ◌∷◌, some, none, arith, ◌≡◌, ◌≢◌, refl, subst, fun_ext, ap,
}
use comfyui_docker_helper.History.{
  MemoryHistory, append_next, evict, pop_keys, pop, put, trim_first, fill, read, read_blocks,
  read_part,
}
use comfyui_docker_helper.History.Reading.{Keeps}
use comfyui_docker_helper.History.Streams.{byte_of}
use comfyui_docker_helper.History.Refinement.{publish_Implements, new-Implements}
use comfyui_docker_helper.Replay.{
  log_bytes, replay_complete, replay_history, select_tail, select_back, span_tail, scan, rfind,
  from_offset, replay_selected, has_gap, last_end, yield_spans, yield_span, proven_suffix,
  memory_tail,
}
use comfyui_docker_helper.Replay.Trust.{Trusted}
use comfyui_docker_helper.Storage.{FileSpan}
use comfyui_docker_helper.Storage.Retained.{file_unavailable}
use comfyui_docker_helper.Storage.Reading.{FileRight}
use comfyui_docker_helper.Query.{
  recording_memory, recording_file, recording_off, RuntimeLogQuery, QueryEnvironment, replay,
  replay_query, proven_tail, notices, memory_reader,
}
use comfyui_docker_helper.Query.Readers.{from_origin, Readable}
use comfyui_docker_helper.Query.Guarantees.{replay-Trusted}
use comfyui_docker_helper.Query.Exact.{ReplayedTail, replay_exact}

abbrev some_bytes : List ℕ
some_bytes = 65 ∷ 10 ∷ 66 ∷ 10 ∷ 67 ∷ []

abbrev new_memory : MemoryHistory
new_memory = record { max_size = 8; start = 0; end = 0; blocks = λ k. none }

abbrev memory : MemoryHistory
memory = append_next 0 some_bytes new_memory

memory-Keeps : Keeps (from_origin 0 (byte_of 0 some_bytes)) memory
memory-Keeps =
    subst (λ g. Keeps g memory) (fun_ext (λ i. ap (byte_of 0 some_bytes) (omega arith)))
      (publish_Implements new_memory (record { capacity = 8; base = 0; stream = [] }) some_bytes
        (new-Implements 8 0 (omega arith))).keeps

abbrev lost_file : FileSpan
lost_file = record { name = 1; inode = 1; start = 0; end = 2; offset = 0 }

abbrev memory_environment : QueryEnvironment
memory_environment = record {
  mode = recording_memory;
  origin = 0;
  memory = memory;
  store = none;
  readonly = none;
  read_span = λ span start size. file_unavailable;
  degraded = false;
  followed = false;
}

abbrev last_two : RuntimeLogQuery
last_two = record { endpoint = 5; memory_start = 0; tail = some 2; files = none }

last_two_run :
    replay memory_environment last_two
    ≡ some (log_bytes (66 ∷ 10 ∷ 67 ∷ []) ∷ replay_complete true ∷ [])
unfolding replay replay_query proven_tail notices memory_reader append_next evict pop_keys pop put
    trim_first fill read read_blocks read_part replay_history select_tail select_back span_tail scan
    rfind from_offset replay_selected has_gap last_end yield_spans yield_span proven_suffix
    memory_tail
last_two_run = refl

memory_begins : 0 + memory.start ≤ 0
unfolding append_next
memory_begins = omega arith

memory_ends : 5 ≤ 0 + memory.end
unfolding append_next
memory_ends = omega arith

replay_exact_example :
    ReplayedTail (byte_of 0 some_bytes) 0 5 2 (replay memory_environment last_two)
replay_exact_example =
    replay_exact (byte_of 0 some_bytes) memory_environment last_two 2 refl refl (omega arith)
      memory-Keeps memory_begins (omega arith) memory_ends

abbrev file_environment : QueryEnvironment
file_environment = record memory_environment {
  mode = recording_file;
  store = some (lost_file ∷ []);
}

abbrev all_lines : RuntimeLogQuery
all_lines = record last_two { tail = none; files = some (lost_file ∷ []) }

recording_is_on : recording_file ≢ recording_off
recording_is_on e = cc e

lost_file-Readable : Readable (byte_of 0 some_bytes) (λ span start size. file_unavailable) lost_file
unfolding FileRight
lost_file-Readable = record { whole = λ start size. tt; cut = λ at start size. tt }

replay-Trusted_example : Trusted (byte_of 0 some_bytes) 5 (replay file_environment all_lines)
replay-Trusted_example =
    replay-Trusted (byte_of 0 some_bytes) file_environment all_lines recording_is_on memory-Keeps
      (lost_file-Readable, tt) (lost_file-Readable, tt)
