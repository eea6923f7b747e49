-- ===== src/Query/Readers.antt =====
-- What the readers of a query give
-- (src/comfyui_docker_helper/container/runtime/log_query.py and logging.py).
use comfyui_docker_helper.Prelude.{
  ℕ, zero, suc, ◌+◌, ◌-◌, ◌≤◌, min, false, List, [], ◌∷◌, All, All-append, Option, none, some, ltb,
  ltb→lt, ◌&&◌, ◌||◌, arith, ◌≡◌, refl, ap, ◌∙◌, Bool-cases, inl, inr,
}
use comfyui_docker_helper.History.{MemoryHistory, log_read_bytes, read}
use comfyui_docker_helper.History.Windows.{window, window_at}
use comfyui_docker_helper.History.Reading.{Keeps, read_blocks_lem}
use comfyui_docker_helper.Replay.{HistorySpan, missing_history}
use comfyui_docker_helper.Replay.Search.{Right, Honest}
use comfyui_docker_helper.Storage.{FileSpan}
use comfyui_docker_helper.Storage.Retained.{FileRead, file_bytes, file_unavailable, out_of_range}
use comfyui_docker_helper.Storage.Reading.{FileRight}
use comfyui_docker_helper.Query.{
  memory_reader, file_bytes_of, clip_end, file_spans, memory_spans, cut_front, additions,
  greatest_end, query_files, or_empty, missing_front, with_missing, RuntimeLogQuery, expected_start,
  history_spans, QueryEnvironment,
}

-- The stream as the memory history counts it.
abbrev pub from_origin : ℕ → (ℕ → ℕ) → ℕ → ℕ
from_origin origin f i = f (origin + i)

window-from_origin :
    (origin : ℕ) (f : ℕ → ℕ) (a n : ℕ) → window (from_origin origin f) a n ≡ window f (origin + a) n
window-from_origin origin f a zero = refl
window-from_origin origin f a (suc n) =
    ap (λ r. f (origin + a) ∷ r)
      (window-from_origin origin f (a + 1) n
        ∙ window_at f (origin + (a + 1)) (origin + a + 1) n n (omega arith) refl)

-- A read of bytes that memory still has.
pub memory_reader_there :
    (f : ℕ → ℕ) (origin : ℕ) (h : MemoryHistory) (start size : ℕ)
    → Keeps (from_origin origin f) h
    → origin + h.start ≤ start
    → start + size ≤ origin + h.end
    → size ≤ log_read_bytes
    → memory_reader origin h start size ≡ some (window f start size)
unfolding memory_reader read
memory_reader_there f origin h start size keeps low high small =
    let at = start - origin in
    let found =
      read_blocks_lem size (from_origin origin f) at (at + size) h keeps (omega arith) (omega arith)
        (omega arith) in
    let width : at + size - at ≡ size = omega arith in
    let place : origin + at ≡ start = omega arith in
    let behind : ltb start origin ≡ false = ground arith in
    let fits : ltb log_read_bytes size ≡ false = ground arith in
    let inside : (ltb at h.start || ltb h.end (at + size)) ≡ false = ground arith in
    rw behind (rw (fits, inside, found, width, window-from_origin origin f at size, place) refl)

-- A read of memory gives the bytes of the stream or nothing.
pub memory_reader-Right :
    (f : ℕ → ℕ) (origin : ℕ) (h : MemoryHistory) (start size : ℕ)
    → Keeps (from_origin origin f) h
    → size ≤ log_read_bytes
    → Right Unit f start size (memory_reader origin h start size)
unfolding memory_reader read
memory_reader-Right f origin h start size keeps small = elim (Bool-cases (ltb start origin)) [
  | inl e ↦ rw e tt
  | inr e ↦ elim (Bool-cases (ltb (start - origin) h.start || ltb h.end (start - origin + size))) [
    | inl out ↦
        let fits : ltb log_read_bytes size ≡ false = ground arith in rw e (rw (fits, out) tt)
    | inr inside ↦
        rw (memory_reader_there f origin h start size keeps (ground arith) (ground arith) small)
          refl
  ]
]

-- The reads of a captured file, and of the end of one.
pub record Readable (f : ℕ → ℕ) (read_span : FileSpan → ℕ → ℕ → FileRead) (span : FileSpan)
    : Type 0 where
  pub whole : (start size : ℕ) → FileRight f start size (read_span span start size)
  pub cut : (at start size : ℕ) → FileRight f start size (read_span (cut_front at span) start size)

-- The reads of one span.
abbrev pub ReadsRight : (ℕ → ℕ) → (FileSpan → ℕ → ℕ → FileRead) → FileSpan → Type 0
ReadsRight f read_span span = (start size : ℕ) → FileRight f start size (read_span span start size)

file_bytes-Right :
    (f : ℕ → ℕ) (start size : ℕ) (r : FileRead)
    → FileRight f start size r
    → Right Unit f start size (file_bytes_of r)
unfolding FileRight
file_bytes-Right f start size (file_bytes bytes) h = h
file_bytes-Right f start size file_unavailable h = tt
file_bytes-Right f start size out_of_range h = tt

file_spans-Honest :
    (f : ℕ → ℕ) (read_span : FileSpan → ℕ → ℕ → FileRead) (memory : Option MemoryHistory)
    (endpoint memory_start : ℕ) (spans : List FileSpan)
    → All (ReadsRight f read_span) spans
    → All (Honest Unit f) (file_spans read_span memory endpoint memory_start spans)
unfolding file_spans
file_spans-Honest f read_span memory endpoint memory_start [] h = tt
file_spans-Honest f read_span memory endpoint memory_start (span ∷ spans) (right, h) =
    let rest = file_spans-Honest f read_span memory endpoint memory_start spans h in
    let end = clip_end memory endpoint memory_start span.end in
    elim (Bool-cases (ltb span.start end)) [
      | inr e ↦ rw e rest
      | inl e ↦
          let lt = ltb→lt span.start end e in
          rw e (
            record {
              ordered = omega arith;
              right = λ start size a b c.
                  file_bytes-Right f start size (read_span span start size) (right start size);
            },
            rest,
          )
    ]

additions-ReadsRight :
    (f : ℕ → ℕ) (read_span : FileSpan → ℕ → ℕ → FileRead) (old_end : ℕ) (spans : List FileSpan)
    → All (Readable f read_span) spans
    → All (ReadsRight f read_span) (additions old_end spans)
unfolding additions
additions-ReadsRight f read_span old_end [] h = tt
additions-ReadsRight f read_span old_end (span ∷ spans) (readable, h) =
    let rest = additions-ReadsRight f read_span old_end spans h in
    elim (Bool-cases (ltb old_end span.end)) [
      | inl e ↦ rw e (readable.cut old_end, rest)
      | inr e ↦ rw e rest
    ]

pub All-whole :
    (f : ℕ → ℕ) (read_span : FileSpan → ℕ → ℕ → FileRead) (spans : List FileSpan)
    → All (Readable f read_span) spans
    → All (ReadsRight f read_span) spans
All-whole f read_span [] h = tt
All-whole f read_span (span ∷ spans) (readable, h) = (readable.whole, All-whole f read_span spans h)

-- Every file that a query may read is readable.
abbrev pub FilesReadable : (ℕ → ℕ) → (FileSpan → ℕ → ℕ → FileRead) → Option (List FileSpan) → Type 0
FilesReadable f read_span files = All (Readable f read_span) (or_empty files)

query_files-ReadsRight :
    (f : ℕ → ℕ) (read_span : FileSpan → ℕ → ℕ → FileRead) (origin : ℕ)
    (files store : Option (List FileSpan))
    → FilesReadable f read_span files
    → FilesReadable f read_span store
    → All (ReadsRight f read_span) (or_empty (query_files origin files store))
unfolding query_files
query_files-ReadsRight f read_span origin none none h k = tt
query_files-ReadsRight f read_span origin none (some spans) h k = All-whole f read_span spans k
query_files-ReadsRight f read_span origin (some files) none h k = tt
query_files-ReadsRight f read_span origin (some files) (some spans) h k =
    All-append (ReadsRight f read_span) files (additions (greatest_end origin files) spans)
      (All-whole f read_span files h)
      (additions-ReadsRight f read_span (greatest_end origin files) spans k)

pub memory_span-Honest :
    (f : ℕ → ℕ) (origin : ℕ) (h : MemoryHistory) (start endpoint : ℕ)
    → Keeps (from_origin origin f) h
    → start ≤ endpoint
    → Honest Unit f (record { start = start; end = endpoint; reader = memory_reader origin h })
memory_span-Honest f origin h start endpoint keeps le = record {
  ordered = le;
  right = λ at size a b c. memory_reader-Right f origin h at size keeps c;
}

missing_span-Honest :
    (f : ℕ → ℕ) (start end : ℕ)
    → start ≤ end
    → Honest Unit f (record { start = start; end = end; reader = missing_history })
missing_span-Honest f start end le = record { ordered = le; right = λ at size a b c. tt }

missing_front-Honest :
    (f : ℕ → ℕ) (expected endpoint : ℕ) (spans : List HistorySpan)
    → All (Honest Unit f) spans
    → All (Honest Unit f) (missing_front expected endpoint spans)
unfolding missing_front
missing_front-Honest f expected endpoint [] h = elim (Bool-cases (ltb expected endpoint)) [
  | inl e ↦ rw e (missing_span-Honest f expected endpoint (ground arith), tt)
  | inr e ↦ rw e tt
]
missing_front-Honest f expected endpoint (a ∷ spans) h =
    elim (Bool-cases (ltb expected a.start && ltb expected (min endpoint a.start))) [
      | inl e ↦ rw e (missing_span-Honest f expected (min endpoint a.start) (ground arith), h)
      | inr e ↦ rw e h
    ]

-- The spans of a query over memory.
pub query_spans-Honest :
    (f : ℕ → ℕ) (env : QueryEnvironment) (q : RuntimeLogQuery) (start : ℕ)
    (store : Option (List FileSpan))
    → Keeps (from_origin env.origin f) env.memory
    → FilesReadable f env.read_span q.files
    → FilesReadable f env.read_span store
    → All (Honest Unit f) (
        with_missing (some env.memory) q start (
          history_spans env q.endpoint
            (some env.memory)
            start
            (query_files env.origin q.files store)))
unfolding history_spans memory_spans
query_spans-Honest f env q start store keeps files stored =
    let spans =
      history_spans env q.endpoint (some env.memory) start (query_files env.origin q.files store) in
    let memory : All (Honest Unit f) (memory_spans env.origin (some env.memory) q.endpoint start) =
      elim (Bool-cases (ltb start q.endpoint)) [
        | inl e ↦
            rw e
              (memory_span-Honest f env.origin env.memory start q.endpoint keeps (ground arith), tt)
        | inr e ↦ rw e tt
      ] in
    let all : All (Honest Unit f) spans =
      All-append (Honest Unit f) _ _
        (file_spans-Honest f env.read_span (some env.memory) q.endpoint start _
          (query_files-ReadsRight f env.read_span env.origin q.files store files stored))
        memory in
    elim (Bool-cases (ltb q.memory_start start)) [
      | inl e ↦ rw e (missing_front-Honest f (expected_start q) q.endpoint spans all)
      | inr e ↦ rw e all
    ]
