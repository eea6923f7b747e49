-- ===== src/Query/Exact.antt =====
-- What a query promises while memory has all that was captured
-- (src/comfyui_docker_helper/container/runtime/logging.py and log_query.py).
use comfyui_docker_helper.Prelude.{
  ℕ, ◌+◌, ◌≤◌, ◌<◌, true, false, List, [], ◌∷◌, Option, none, some, ltb, arith, ◌≡◌, refl, ap,
  Bool-cases, Option-cases, inl, inr,
}
use comfyui_docker_helper.History.{MemoryHistory}
use comfyui_docker_helper.History.Reading.{Keeps}
use comfyui_docker_helper.Replay.{HistorySpan, LogReplayItem, replay_history, memory_tail, is_zero}
use comfyui_docker_helper.Replay.Search.{Honest}
use comfyui_docker_helper.Replay.Yielding.{bytes_of, is_complete}
use comfyui_docker_helper.Replay.Tails.{IsTail}
use comfyui_docker_helper.Replay.Guarantees.{Replayed, replay-IsTail, replay_selected-Replayed}
use comfyui_docker_helper.Storage.{FileSpan}
use comfyui_docker_helper.Query.{
  LogMode, recording_off, recording_memory, recording_file, RuntimeLogQuery, QueryEnvironment,
  memory_reader, history_spans, file_spans, memory_spans, query_files, with_missing, store_of,
  start_of_memory, proven_tail, after_proven, replay_query, notices, prepend, replay,
}
use comfyui_docker_helper.Query.Readers.{from_origin, memory_reader_there}
use comfyui_docker_helper.Query.Tails.{ProvenTail, memory_tail-ProvenTail}

-- The span of memory, where nothing of it was evicted.
memory_span-Chain :
    (f : ℕ → ℕ) (origin : ℕ) (h : MemoryHistory) (low high : ℕ)
    → Keeps (from_origin origin f) h
    → origin + h.start ≤ low
    → low < high
    → high ≤ origin + h.end
    → Honest ⊥ f (record { start = low; end = high; reader = memory_reader origin h })
memory_span-Chain f origin h low high keeps begins lt ends = record {
  ordered = omega arith;
  right = λ start size a b c.
      let there = memory_reader_there f origin h start size keeps (omega arith) (omega arith) c in
      rw there refl;
}

unfoldable pub ReplayedTail : (ℕ → ℕ) → ℕ → ℕ → ℕ → Option (List LogReplayItem) → Type 0
ReplayedTail f low high n o = (at : ℕ) × IsTail f low high n at × Replayed f at high o

notices-Replayed :
    (f : ℕ → ℕ) (at high : ℕ) (env : QueryEnvironment) (o : Option (List LogReplayItem))
    → Replayed f at high o
    → Replayed f at high (prepend (notices env) o)
unfolding Replayed notices bytes_of is_complete
notices-Replayed f at high env none t = t
notices-Replayed f at high env (some items) t = elim (Bool-cases env.degraded) [
  | inl e ↦ rw e t
  | inr e ↦ rw e t
]

after_tail_exact :
    (f : ℕ → ℕ) (low high n origin : ℕ) (o : Option (Option (List HistorySpan)))
    (rest : Option (List LogReplayItem))
    → ProvenTail ⊥ f low high n o
    → ReplayedTail f low high n rest
    → ReplayedTail f low high n (after_proven origin high o rest)
unfolding ProvenTail ReplayedTail replay_history
after_tail_exact f low high n origin none rest h t = absurd h
after_tail_exact f low high n origin (some none) rest h t = t
after_tail_exact f low high n origin (some (some suffix)) rest h t = (
  h.at,
  h.tail,
  replay_selected-Replayed f h.at high origin true (record { spans = suffix; incomplete = false })
      h.before_end refl h.chain,
)

-- In memory mode the only span is memory's.
memory_only :
    (env : QueryEnvironment) (q : RuntimeLogQuery)
    → env.mode ≡ recording_memory
    → q.memory_start < q.endpoint
    → with_missing (some env.memory) q q.memory_start (
        history_spans env q.endpoint
          (some env.memory)
          q.memory_start
          (query_files env.origin q.files (store_of env)))
      ≡ record {
        start = q.memory_start;
        end = q.endpoint;
        reader = memory_reader env.origin env.memory;
      }
        ∷ []
unfolding history_spans memory_spans query_files file_spans
memory_only env q mode lt =
    let kept : ltb q.memory_start q.memory_start ≡ false = ground arith in
    let there : ltb q.memory_start q.endpoint ≡ true = ground arith in
    let no_store : store_of env ≡ none =
      ap
        (λ (m : LogMode). elim m as (λ _. Option (List FileSpan)) [
          | recording_off ↦ env.readonly
          | recording_memory ↦ none
          | recording_file ↦ env.store
        ])
        mode in
    rw (kept, no_store)
      (elim (Option-cases q.files) [
        | inl e ↦ rw (e, there) refl
        | inr (files, e) ↦ rw (e, there) refl
      ])

replay_query-exact :
    (f : ℕ → ℕ) (env : QueryEnvironment) (q : RuntimeLogQuery) (n : ℕ)
    → env.mode ≡ recording_memory
    → q.tail ≡ some n
    → 0 < n
    → Keeps (from_origin env.origin f) env.memory
    → env.origin + env.memory.start ≤ q.memory_start
    → q.memory_start < q.endpoint
    → q.endpoint ≤ env.origin + env.memory.end
    → ReplayedTail f q.memory_start q.endpoint n (replay_query env q true (some env.memory))
unfolding replay_query proven_tail ReplayedTail
replay_query-exact f env q n mode tail pos keeps begins lt ends =
    let span : HistorySpan = record {
      start = q.memory_start;
      end = q.endpoint;
      reader = memory_reader env.origin env.memory;
    } in
    let honest =
      memory_span-Chain f env.origin env.memory q.memory_start q.endpoint keeps begins lt ends in
    let start : start_of_memory env q (some env.memory) ≡ q.memory_start = omega arith in
    rw (start, memory_only env q mode lt, tail)
      (after_tail_exact f q.memory_start q.endpoint n env.origin (memory_tail span n) _
        (memory_tail-ProvenTail ⊥ f span n pos honest)
        (replay-IsTail f q.memory_start q.endpoint n env.origin true (span ∷ []) lt pos
          (honest, refl, refl)))

in_memory_mode :
    (f : ℕ → ℕ) (at high : ℕ) (m : LogMode) (off on : Option (List LogReplayItem))
    → m ≡ recording_memory
    → Replayed f at high on
    → Replayed f at high (elim m [ recording_off ↦ off | other ↦ on ])
in_memory_mode f at high recording_off off on e r = absurd (cc e)
in_memory_mode f at high recording_memory off on e r = r
in_memory_mode f at high recording_file off on e r = r

-- In memory mode, where memory still has all that the query captured, the last n lines are replayed
-- exactly: what is yielded is the longest end of the captured bytes that has no more than n lines, and
-- the replay says that it is complete. This holds on either path, that of the suffix which memory proves
-- and that of all the spans.
pub replay_exact :
    (f : ℕ → ℕ) (env : QueryEnvironment) (q : RuntimeLogQuery) (n : ℕ)
    → env.mode ≡ recording_memory
    → q.tail ≡ some n
    → 0 < n
    → Keeps (from_origin env.origin f) env.memory
    → env.origin + env.memory.start ≤ q.memory_start
    → q.memory_start < q.endpoint
    → q.endpoint ≤ env.origin + env.memory.end
    → ReplayedTail f q.memory_start q.endpoint n (replay env q)
unfolding replay ReplayedTail
replay_exact f env q n mode tail pos keeps begins lt ends =
    let (at, is_tail, replayed) = replay_query-exact f env q n mode tail pos keeps begins lt ends in
    let not_zero : is_zero q.tail ≡ false = ground arith in
    rw not_zero (
      at,
      is_tail,
      in_memory_mode f at q.endpoint env.mode _ _ mode (
          notices-Replayed f at q.endpoint env (replay_query env q true (some env.memory))
            replayed),
    )
