-- ===== src/History/Refinement.antt =====
-- The memory history against a specification: all the bytes that were published, with the offset of
-- the first one (src/comfyui_docker_helper/container/runtime/log_history.py).
use comfyui_docker_helper.Prelude.{
  ℕ, ◌+◌, ◌-◌, ◌≤◌, ◌<◌, max, true, false, List, [], ◌∷◌, ◌++◌, Bool-cases, length, take, drop,
  Option, none, some, if◌then◌else◌, leb, ltb, ◌==◌, ◌&&◌, arith, ◌≡◌, refl, sym, subst, ap, inl,
  inr, length-append,
}
use comfyui_docker_helper.History.{
  log_read_bytes, MemoryHistory, ByteRange, new_history, append, append_next, snapshot, ReadResult,
  bytes_read, read_too_large, history_unavailable, read,
}
use comfyui_docker_helper.History.Windows.{window}
use comfyui_docker_helper.History.Blocks.{Holds-ext, Holds-empty}
use comfyui_docker_helper.History.Reading.{Keeps, read_blocks_lem, append_next-Keeps}
use comfyui_docker_helper.History.Streams.{
  byte_of, take-drop-window, published_window, byte_of-append,
}

-- The calls of a history, and what their callers see.
pub data HistoryCall : Type 0 where
  call_append : ℕ → List ℕ → HistoryCall
  call_read : ℕ → ℕ → HistoryCall
  call_snapshot : HistoryCall

pub data HistoryAnswer : Type 0 where
  published not_sequential : HistoryAnswer
  looked : ReadResult → HistoryAnswer
  viewed : ByteRange → HistoryAnswer

abbrev published_answer {ℓ} : {A : Type ℓ} → Option A → HistoryAnswer
published_answer none = not_sequential
published_answer (some a) = published

abbrev or_else {ℓ} : {A : Type ℓ} → Option A → A → A
or_else none a = a
or_else (some b) a = b

-- A call on a history.
unfoldable pub call_history : HistoryCall → MemoryHistory → HistoryAnswer × MemoryHistory
call_history (call_append start bytes) h =
    (published_answer (append start bytes h), or_else (append start bytes h) h)
call_history (call_read start size) h = (looked (read start size h), h)
call_history call_snapshot h = (viewed (snapshot h), h)

unfoldable pub call_all : List HistoryCall → MemoryHistory → List HistoryAnswer
call_all [] h = []
call_all (c ∷ calls) h = (call_history c h).0 ∷ call_all calls (call_history c h).1

-- The specification: everything that was published is there, and the last `capacity` bytes of it can
-- be read.
pub record Publication : Type 0 where
  pub capacity : ℕ
  pub base : ℕ
  pub stream : List ℕ

abbrev pub end_of : Publication → ℕ
end_of p = p.base + length p.stream

abbrev pub first_of : Publication → ℕ
first_of p = max p.base (end_of p - p.capacity)

unfoldable pub publish_to : ℕ → List ℕ → Publication → Option Publication
publish_to start bytes p =
    if start == end_of p then some (record p { stream = p.stream ++ bytes }) else none

unfoldable pub look_at : ℕ → ℕ → Publication → ReadResult
look_at start size p =
    if ltb log_read_bytes size
    then read_too_large
    else if leb (first_of p) start && leb (start + size) (end_of p)
    then bytes_read (take size (drop (start - p.base) p.stream))
    else history_unavailable

unfoldable pub call_publication : HistoryCall → Publication → HistoryAnswer × Publication
call_publication (call_append start bytes) p =
    (published_answer (publish_to start bytes p), or_else (publish_to start bytes p) p)
call_publication (call_read start size) p = (looked (look_at start size p), p)
call_publication call_snapshot p = (viewed (record { start = first_of p; end = end_of p }), p)

unfoldable pub call_all_publication : List HistoryCall → Publication → List HistoryAnswer
call_all_publication [] p = []
call_all_publication (c ∷ calls) p =
    (call_publication c p).0 ∷ call_all_publication calls (call_publication c p).1

-- What ties a history to its publication.
pub record Implements (h : MemoryHistory) (p : Publication) : Type 0 where
  pub capacity : h.max_size ≡ p.capacity
  pub positive : 0 < p.capacity
  pub start : h.start ≡ first_of p
  pub end : h.end ≡ end_of p
  pub keeps : Keeps (byte_of p.base p.stream) h

pub publish_Implements :
    (h : MemoryHistory) (p : Publication) (bytes : List ℕ)
    → Implements h p
    → Implements (append_next h.end bytes h) (record p { stream = p.stream ++ bytes })
unfolding append_next
publish_Implements h p bytes i =
    let stream' = p.stream ++ bytes in
    let at = byte_of p.base stream' in
    let before = i.keeps in
    let ends = i.end in
    let begins = i.start in
    let kept : Keeps at h = record {
      ordered = before.ordered;
      holds =
          Holds-ext (byte_of p.base p.stream) at h.start h.end h.blocks
            (λ k low high. byte_of-append p.base p.stream bytes k (omega arith) (omega arith))
            before.holds;
    } in
    record {
      capacity = i.capacity;
      positive = i.positive;
      start = omega (arith, length-append {0} p.stream bytes, i.start, i.end, i.capacity);
      end = omega (arith, length-append {0} p.stream bytes, i.end);
      keeps =
          append_next-Keeps at bytes h
            (subst (λ e. bytes ≡ window at e (length bytes)) (sym ends)
              (published_window p.base p.stream bytes))
            kept;
    }

look_lem :
    (h : MemoryHistory) (p : Publication) (start size : ℕ)
    → Implements h p
    → read start size h ≡ look_at start size p
unfolding read look_at
look_lem h p start size i =
    let begins = i.start in
    let ends = i.end in
    elim (Bool-cases (leb (first_of p) start && leb (start + size) (end_of p))) [
      | inr e ↦ ground arith
      | inl e ↦
          let low : first_of p ≤ start = ground arith in
          let high : start + size ≤ end_of p = ground arith in
          let found =
            read_blocks_lem size (byte_of p.base p.stream) start (start + size) h i.keeps
              (omega arith) (omega arith) (omega arith) in
          let wanted = take-drop-window p.base p.stream (start - p.base) size (omega arith) in
          let at : p.base + (start - p.base) ≡ start = omega arith in
          let width : start + size - start ≡ size = omega arith in
          rw (found, wanted, at, width) (ground arith)
    ]

call_lem :
    (c : HistoryCall) (h : MemoryHistory) (p : Publication)
    → Implements h p
    → ((call_history c h).0 ≡ (call_publication c p).0)
      × Implements (call_history c h).1 (call_publication c p).1
unfolding call_history call_publication append publish_to snapshot
call_lem (call_read start size) h p i = (ap looked (look_lem h p start size i), i)
call_lem call_snapshot h p i = let begins = i.start in let ends = i.end in (ground arith, i)
call_lem (call_append start bytes) h p i =
    let ends = i.end in
    elim (Bool-cases (start == end_of p)) [
      | inr e ↦
          let not_there : (start == h.end) ≡ false = ground arith in rw (e, not_there) (refl, i)
      | inl e ↦
          let same : start ≡ h.end = ground arith in
          let here : (h.end == h.end) ≡ true = ground arith in
          let there : (h.end == end_of p) ≡ true = ground arith in
          rw same (rw (here, there) (refl, publish_Implements h p bytes i))
    ]

call_all_lem :
    (calls : List HistoryCall) (h : MemoryHistory) (p : Publication)
    → Implements h p
    → call_all calls h ≡ call_all_publication calls p
unfolding call_all call_all_publication
call_all_lem [] h p i = refl
call_all_lem (c ∷ calls) h p i =
    let (same, next) = call_lem c h p i in
    cc (same, call_all_lem calls (call_history c h).1 (call_publication c p).1 next)

pub new-Implements :
    (max_size start : ℕ)
    → 0 < max_size
    → Implements
        (record { max_size = max_size; start = start; end = start; blocks = λ k. none })
        (record { capacity = max_size; base = start; stream = [] })
new-Implements max_size start pos = record {
  capacity = refl;
  positive = pos;
  start = omega arith;
  end = omega arith;
  keeps = record { ordered = omega arith; holds = Holds-empty (byte_of start []) start };
}

-- The memory history implements its specification: after any calls on a new history, a publication is
-- taken exactly where it begins at the end of what was published; a read of at most 64 KiB within the
-- last `max_size` published bytes gives the bytes that were published there, however they were cut
-- into blocks and evicted; every other read raises; and the range that `snapshot` gives is that of
-- those last bytes.
pub history_refines :
    (max_size start : ℕ) (h : MemoryHistory) (calls : List HistoryCall)
    → new_history max_size start ≡ some h
    → call_all calls h
      ≡ call_all_publication calls (record { capacity = max_size; base = start; stream = [] })
unfolding new_history
history_refines max_size start h calls e = elim (Bool-cases (max_size == 0)) [
  | inl z ↦ absurd (ground arith)
  | inr pos ↦
      subst
        (λ g.
          call_all calls g
          ≡ call_all_publication calls (record { capacity = max_size; base = start; stream = [] }))
        (ground arith)
        (call_all_lem calls
          (record { max_size = max_size; start = start; end = start; blocks = λ k. none })
          (record { capacity = max_size; base = start; stream = [] })
          (new-Implements max_size start (ground arith)))
]
