-- ===== src/Query.antt =====
-- src/comfyui_docker_helper/container/runtime/logging.py (RuntimeLogQuery.replay) and
-- src/comfyui_docker_helper/container/runtime/log_query.py (history_spans): how one query of the runtime
-- log puts its spans together from the memory history and the retained files, and replays them. Offsets
-- are counted from an origin, where the memory history's 0 stands.
pub mod Readers
pub mod Tails
pub mod Guarantees
pub mod Exact
pub mod Files
mod Examples
use comfyui_docker_helper.Prelude.{
  ℕ, ◌+◌, ◌-◌, min, max, Bool, true, false, List, [], ◌∷◌, ◌++◌, Option, none, some, if◌then◌else◌,
  ltb, ◌&&◌,
}
use comfyui_docker_helper.History.{MemoryHistory, ReadResult, bytes_read, read}
use comfyui_docker_helper.Replay.{
  Reader, HistorySpan, missing_history, LogReplayItem, log_diagnostic, replay_complete,
  replay_history, memory_tail, is_zero,
}
use comfyui_docker_helper.Storage.{FileSpan}
use comfyui_docker_helper.Storage.Retained.{FileRead, file_bytes}

pub data LogMode : Type 0 where
  recording_off recording_memory recording_file : LogMode

-- What a query captured.
pub record RuntimeLogQuery : Type 0 where
  pub endpoint : ℕ
  pub memory_start : ℕ
  pub tail : Option ℕ
  pub files : Option (List FileSpan)

-- What the query finds at its replay: `store` is the snapshot of the broker's store where there is one,
-- `readonly` that of the store that is opened while recording is off, `read_span` are the calls of
-- `read` of either, and `degraded` tells whether `poll_diagnostic` has something to say.
pub record QueryEnvironment : Type 0 where
  pub mode : LogMode
  pub origin : ℕ
  pub memory : MemoryHistory
  pub store : Option (List FileSpan)
  pub readonly : Option (List FileSpan)
  pub read_span : FileSpan → ℕ → ℕ → FileRead
  pub degraded : Bool
  pub followed : Bool

abbrev pub memory_bytes : ReadResult → Option (List ℕ)
memory_bytes (bytes_read bytes) = some bytes
memory_bytes other = none

-- The memory history as a reader; all reads of a replay are within the size that it takes.
unfoldable pub memory_reader : ℕ → MemoryHistory → Reader
memory_reader origin h start size =
    if ltb start origin then none else memory_bytes (read (start - origin) size h)

abbrev pub file_bytes_of : FileRead → Option (List ℕ)
file_bytes_of (file_bytes bytes) = some bytes
file_bytes_of other = none

-- `_FileReader.read`; the ranges of `history_spans` lie within the file's span, so that the error of one that
-- does not never comes.
abbrev pub file_reader : (FileSpan → ℕ → ℕ → FileRead) → FileSpan → Reader
file_reader read_span span start size = file_bytes_of (read_span span start size)

abbrev pub clip_end : Option MemoryHistory → ℕ → ℕ → ℕ → ℕ
clip_end none endpoint memory_start end = min end endpoint
clip_end (some h) endpoint memory_start end = min (min end endpoint) memory_start

-- The loop of `history_spans` over the files.
unfoldable pub file_spans :
    (FileSpan → ℕ → ℕ → FileRead) → Option MemoryHistory → ℕ → ℕ → List FileSpan → List HistorySpan
file_spans read_span memory endpoint memory_start [] = []
file_spans read_span memory endpoint memory_start (span ∷ spans) =
    let end = clip_end memory endpoint memory_start span.end in
    let rest = file_spans read_span memory endpoint memory_start spans in
    if ltb span.start end
    then record { start = span.start; end = end; reader = file_reader read_span span } ∷ rest
    else rest

unfoldable pub memory_spans : ℕ → Option MemoryHistory → ℕ → ℕ → List HistorySpan
memory_spans origin none endpoint memory_start = []
memory_spans origin (some h) endpoint memory_start =
    if ltb memory_start endpoint
    then record { start = memory_start; end = endpoint; reader = memory_reader origin h } ∷ []
    else []

abbrev pub or_empty : Option (List FileSpan) → List FileSpan
or_empty none = []
or_empty (some spans) = spans

-- `history_spans`, with the spans of the files in place of a store and its snapshot.
unfoldable pub history_spans :
    QueryEnvironment → ℕ → Option MemoryHistory → ℕ → Option (List FileSpan) → List HistorySpan
history_spans env endpoint memory memory_start files =
    file_spans env.read_span memory endpoint memory_start (or_empty files)
    ++ memory_spans env.origin memory endpoint memory_start

-- `max((span.end for span in files.spans), default=0)`
unfoldable pub greatest_end : ℕ → List FileSpan → ℕ
greatest_end least [] = least
greatest_end least (span ∷ []) = span.end
greatest_end least (span ∷ next ∷ spans) = max span.end (greatest_end least (next ∷ spans))

-- A span from an offset on.
abbrev pub cut_front : ℕ → FileSpan → FileSpan
cut_front at span = record span {
  start = max span.start at;
  offset = span.offset + (at - span.start);
}

-- The bytes that the store has acknowledged since the files were captured.
unfoldable pub additions : ℕ → List FileSpan → List FileSpan
additions old_end [] = []
additions old_end (span ∷ spans) =
    let rest = additions old_end spans in
    if ltb old_end span.end then cut_front old_end span ∷ rest else rest

-- The files of a query: those captured with what was added, or all that the store has.
unfoldable pub query_files :
    ℕ → Option (List FileSpan) → Option (List FileSpan) → Option (List FileSpan)
query_files origin none store = store
query_files origin (some files) none = none
query_files origin (some files) (some spans) =
    some (files ++ additions (greatest_end origin files) spans)

abbrev pub lesser : Option ℕ → ℕ → ℕ
lesser none start = start
lesser (some a) start = min a start

-- The least start of the files that are not empty, as far as the least one before.
unfoldable pub least_start : Option ℕ → List FileSpan → Option ℕ
least_start least [] = least
least_start least (span ∷ spans) =
    let rest = λ (next : Option ℕ). least_start next spans in
    if ltb span.start span.end then rest (some (lesser least span.start)) else rest least

abbrev pub or_default : ℕ → Option ℕ → ℕ
or_default n none = n
or_default n (some m) = m

abbrev pub expected_start : RuntimeLogQuery → ℕ
expected_start q = elim q.files [
  | none ↦ q.memory_start
  | some files ↦ or_default q.memory_start (least_start none files)
]

-- A range that should be there and is not, in front of the spans.
unfoldable pub missing_front : ℕ → ℕ → List HistorySpan → List HistorySpan
missing_front expected endpoint [] =
    if ltb expected endpoint
    then record { start = expected; end = endpoint; reader = missing_history } ∷ []
    else []
missing_front expected endpoint (a ∷ spans) =
    if ltb expected a.start && ltb expected (min endpoint a.start)
    then record { start = expected; end = min endpoint a.start; reader = missing_history }
      ∷ a
      ∷ spans
    else a ∷ spans

-- Whether something of the captured memory was evicted.
abbrev pub with_missing :
    Option MemoryHistory → RuntimeLogQuery → ℕ → List HistorySpan → List HistorySpan
with_missing none q start spans = spans
with_missing (some h) q start spans =
    if ltb q.memory_start start then missing_front (expected_start q) q.endpoint spans else spans

abbrev pub memory_of : QueryEnvironment → Option MemoryHistory
memory_of env = elim env.mode [ recording_off ↦ none | other ↦ some env.memory ]

abbrev pub store_of : QueryEnvironment → Option (List FileSpan)
store_of env = elim env.mode [
  | recording_off ↦ env.readonly
  | recording_memory ↦ none
  | recording_file ↦ env.store
]

-- The start of what is still in memory.
abbrev pub start_of_memory : QueryEnvironment → RuntimeLogQuery → Option MemoryHistory → ℕ
start_of_memory env q none = q.memory_start
start_of_memory env q (some h) = min q.endpoint (max q.memory_start (env.origin + h.start))

-- The recent suffix that memory alone proves; the outer option is for fuel only.
unfoldable pub proven_tail :
    QueryEnvironment
    → RuntimeLogQuery
    → Option MemoryHistory
    → ℕ
    → Option (Option (List HistorySpan))
proven_tail env q none start = some none
proven_tail env q (some h) start = elim q.tail [
  | none ↦ some none
  | some n ↦
      memory_tail (record { start = start; end = q.endpoint; reader = memory_reader env.origin h })
        n
]

-- The proven suffix is replayed whole, in place of the rest.
abbrev pub after_proven :
    ℕ
    → ℕ
    → Option (Option (List HistorySpan))
    → Option (List LogReplayItem)
    → Option (List LogReplayItem)
after_proven origin endpoint none rest = none
after_proven origin endpoint (some (some suffix)) rest =
    replay_history origin suffix endpoint none true
after_proven origin endpoint (some none) rest = rest

-- The replay of a query that nothing ended before.
unfoldable pub replay_query :
    QueryEnvironment → RuntimeLogQuery → Bool → Option MemoryHistory → Option (List LogReplayItem)
replay_query env q require_endpoint memory =
    let start = start_of_memory env q memory in
    after_proven env.origin q.endpoint (proven_tail env q memory start) (
      replay_history env.origin
        (with_missing memory q start (
          history_spans env q.endpoint memory start
            (query_files env.origin q.files (store_of env))))
        q.endpoint q.tail require_endpoint)

-- What is said before the bytes.
unfoldable pub notices : QueryEnvironment → List LogReplayItem
notices env = if env.degraded then log_diagnostic false ∷ [] else []

-- While recording is off.
unfoldable pub off_notices : QueryEnvironment → List LogReplayItem
off_notices env = log_diagnostic false ∷ (if env.followed then log_diagnostic false ∷ [] else [])

abbrev pub prepend : List LogReplayItem → Option (List LogReplayItem) → Option (List LogReplayItem)
prepend items none = none
prepend items (some more) = some (items ++ more)

-- `RuntimeLogQuery.replay`; none is for fuel only. The wait for the store's prefix, which precedes
-- `store`, and the closing of the follower are left out.
unfoldable pub replay : QueryEnvironment → RuntimeLogQuery → Option (List LogReplayItem)
replay env q =
    if is_zero q.tail then some (notices env ++ replay_complete true ∷ []) else elim env.mode [
      | recording_off ↦ elim env.readonly [
        | none ↦
            some
              (notices env ++ (off_notices env ++ log_diagnostic true ∷ replay_complete false ∷ []))
        | some spans ↦ prepend (notices env ++ off_notices env) (replay_query env q false none)
      ]
      | other ↦ prepend (notices env) (replay_query env q true (some env.memory))
    ]
