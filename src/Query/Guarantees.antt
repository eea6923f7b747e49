-- ===== src/Query/Guarantees.antt =====
-- What a query of the runtime log promises
-- (src/comfyui_docker_helper/container/runtime/logging.py and log_query.py).
use comfyui_docker_helper.Prelude.{
  ℕ, ◌≤◌, ◌<◌, true, false, List, [], ◌∷◌, Option, none, some, ◌==◌, arith, ◌≡◌, ◌≢◌, refl, sym, ap,
  ◌∙◌, Bool-cases, Option-cases, inl, inr,
}
use comfyui_docker_helper.History.Reading.{Keeps}
use comfyui_docker_helper.Replay.{HistorySpan, LogReplayItem, replay_complete, is_zero}
use comfyui_docker_helper.Replay.Selecting.{Chain-Honest}
use comfyui_docker_helper.Replay.Yielding.{bytes_of, is_complete}
use comfyui_docker_helper.Replay.Trust.{Trusted, replay_complete_lem, nothing-Trusted}
use comfyui_docker_helper.Query.{
  LogMode, recording_off, recording_memory, recording_file, RuntimeLogQuery, QueryEnvironment,
  memory_reader, store_of, start_of_memory, proven_tail, after_proven, replay_query, notices,
  prepend, replay,
}
use comfyui_docker_helper.Query.Readers.{
  from_origin, FilesReadable, memory_span-Honest, query_spans-Honest,
}
use comfyui_docker_helper.Query.Tails.{ProvenTail, memory_tail-ProvenTail}

-- The search of memory, if there is one.
tail_of_memory :
    (f : ℕ → ℕ) (env : QueryEnvironment) (q : RuntimeLogQuery) (start : ℕ)
    → is_zero q.tail ≡ false
    → Keeps (from_origin env.origin f) env.memory
    → start ≤ q.endpoint
    → (n : ℕ) × ProvenTail Unit f start q.endpoint n (proven_tail env q (some env.memory) start)
unfolding proven_tail ProvenTail
tail_of_memory f env q start e keeps le = elim (Option-cases q.tail) [
  | inl nothing ↦ (0, rw nothing tt)
  | inr (n, some_tail) ↦ (
    n,
    rw some_tail (
        memory_tail-ProvenTail Unit f
          (record { start = start; end = q.endpoint; reader = memory_reader env.origin env.memory })
          n (positive n (sym (ap is_zero some_tail) ∙ e))
          (memory_span-Honest f env.origin env.memory start q.endpoint keeps le)),
  )
]
  where
    positive : (n : ℕ) → (n == 0) ≡ false → 0 < n
    positive n h = ground arith

after_tail_Trusted :
    (f : ℕ → ℕ) (endpoint low n : ℕ) (o : Option (Option (List HistorySpan))) (origin : ℕ)
    (rest : Option (List LogReplayItem))
    → ProvenTail Unit f low endpoint n o
    → Trusted f endpoint rest
    → Trusted f endpoint (after_proven origin endpoint o rest)
unfolding ProvenTail Trusted
after_tail_Trusted f endpoint low n none origin rest h t = absurd h
after_tail_Trusted f endpoint low n (some none) origin rest h t = t
after_tail_Trusted f endpoint low n (some (some suffix)) origin rest h t =
    replay_complete_lem f endpoint origin none suffix
      (Chain-Honest Unit f h.at endpoint suffix h.chain)

replay_query-Trusted :
    (f : ℕ → ℕ) (env : QueryEnvironment) (q : RuntimeLogQuery)
    → is_zero q.tail ≡ false
    → Keeps (from_origin env.origin f) env.memory
    → FilesReadable f env.read_span q.files
    → FilesReadable f env.read_span (store_of env)
    → Trusted f q.endpoint (replay_query env q true (some env.memory))
unfolding replay_query
replay_query-Trusted f env q e keeps files stored =
    let start = start_of_memory env q (some env.memory) in
    let (n, tail) = tail_of_memory f env q start e keeps (omega arith) in
    after_tail_Trusted f q.endpoint start n (proven_tail env q (some env.memory) start) env.origin _
      tail
      (replay_complete_lem f q.endpoint env.origin q.tail _
        (query_spans-Honest f env q start (store_of env) keeps files stored))

notices-Trusted :
    (f : ℕ → ℕ) (endpoint : ℕ) (env : QueryEnvironment) (o : Option (List LogReplayItem))
    → Trusted f endpoint o
    → Trusted f endpoint (prepend (notices env) o)
unfolding Trusted notices bytes_of is_complete
notices-Trusted f endpoint env none t = t
notices-Trusted f endpoint env (some items) t = elim (Bool-cases env.degraded) [
  | inl e ↦ rw e t
  | inr e ↦ rw e t
]

no_more_bytes : bytes_of (replay_complete true ∷ []) ≡ []
unfolding bytes_of
no_more_bytes = refl

by_mode :
    (f : ℕ → ℕ) (endpoint : ℕ) (m : LogMode) (off on : Option (List LogReplayItem))
    → m ≢ recording_off
    → Trusted f endpoint on
    → Trusted f endpoint (elim m [ recording_off ↦ off | other ↦ on ])
by_mode f endpoint recording_off off on differ t = absurd (differ refl)
by_mode f endpoint recording_memory off on differ t = t
by_mode f endpoint recording_file off on differ t = t

-- While recording is on, a query always ends its replay; and if it says that the replay is complete,
-- the bytes that it yielded are an unbroken end of the stream up to the endpoint that was captured,
-- whatever memory has lost since, whichever files were rotated or removed, and whichever of them cannot
-- be read, if memory holds the stream and the files give its bytes or an error.
pub replay-Trusted :
    (f : ℕ → ℕ) (env : QueryEnvironment) (q : RuntimeLogQuery)
    → env.mode ≢ recording_off
    → Keeps (from_origin env.origin f) env.memory
    → FilesReadable f env.read_span q.files
    → FilesReadable f env.read_span (store_of env)
    → Trusted f q.endpoint (replay env q)
unfolding replay
replay-Trusted f env q on keeps files stored = elim (Bool-cases (is_zero q.tail)) [
  | inl e ↦ rw e (
      notices-Trusted f q.endpoint env (some (replay_complete true ∷ []))
        (nothing-Trusted f q.endpoint (replay_complete true ∷ []) no_more_bytes))
  | inr e ↦ rw e (
      by_mode f q.endpoint env.mode _ _ on (
        notices-Trusted f q.endpoint env (replay_query env q true (some env.memory))
          (replay_query-Trusted f env q e keeps files stored)))
]
