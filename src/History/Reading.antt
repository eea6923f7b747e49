-- ===== src/History/Reading.antt =====
-- What `append` and `read` of a memory history do to the bytes that it keeps
-- (src/comfyui_docker_helper/container/runtime/log_history.py).
use comfyui_docker_helper.Prelude.{
  ℕ, zero, suc, ◌+◌, ◌-◌, ◌*◌, ◌/◌, ◌%◌, ◌≤◌, ◌<◌, min, max, List, ◌++◌, Bool-cases, ltb→lt, length,
  drop, if◌then◌else◌, ltb, arith, ◌≡◌, refl, subst, ◌∙◌, inl, inr,
}
use comfyui_docker_helper.History.{
  evict, trim_first, fill, log_block_bytes, MemoryHistory, append_next, bytes_read, read_part,
  read_blocks,
}
use comfyui_docker_helper.History.Windows.{
  window, window_at, length-window, window-append, drop-window, take-window,
}
use comfyui_docker_helper.History.Blocks.{Holds, block_at-some}
use comfyui_docker_helper.History.Keeping.{fill-Holds, kept-Holds}

-- The history keeps the bytes of a stream from `start` to `end`.
pub record Keeps (f : ℕ → ℕ) (h : MemoryHistory) : Type 0 where
  pub ordered : h.start ≤ h.end
  pub holds : Holds f h.start h.end h.blocks

-- One turn of the reading loop at a block that is there.
read_turn :
    (f : ℕ → ℕ) (h : MemoryHistory) (start count : ℕ) (more : List ℕ)
    → Keeps f h
    → h.start ≤ start
    → start + count ≤ h.end
    → 0 < count
    → start % log_block_bytes + count ≤ log_block_bytes
    → read_part
        (h.blocks (start / log_block_bytes))
        (start - max h.start (start / log_block_bytes * log_block_bytes))
        count
        (bytes_read more)
      ≡ bytes_read (window f start count ++ more)
unfolding Holds read_part
read_turn f h start count more keeps low high pos fits =
    let key = start / log_block_bytes in
    let from = max h.start (key * log_block_bytes) in
    let to = min h.end (key * log_block_bytes + log_block_bytes) in
    rw
      (keeps.holds key
        ∙ block_at-some f h.start h.end key from (to - from) refl (omega arith) (omega arith))
      (rw
        (drop-window f (start - from) from (to - from) start (to - start) (omega arith)
          (omega arith) (omega arith))
        (rw (take-window f count start (to - start) (omega arith)) refl))

pub read_blocks_lem :
    (fuel : ℕ) (f : ℕ → ℕ) (start end : ℕ) (h : MemoryHistory)
    → Keeps f h
    → h.start ≤ start
    → end ≤ h.end
    → end - start ≤ fuel
    → read_blocks fuel start end h ≡ bytes_read (window f start (end - start))
unfolding read_blocks
read_blocks_lem zero f start end h keeps low high enough =
    let nothing : end - start ≡ 0 = omega arith in rw nothing refl
read_blocks_lem (suc fuel) f start end h keeps low high enough = elim (Bool-cases (ltb start end)) [
  | inr e ↦ let nothing : end - start ≡ 0 = ground arith in rw (e, nothing) refl
  | inl e ↦
      let lt = ltb→lt start end e in
      let count = min (end - start) (log_block_bytes - start % log_block_bytes) in
      rw e (
        rw (read_blocks_lem fuel f (start + count) end h keeps (omega arith) high (omega arith)) (
          rw
            (read_turn f h start count (window f (start + count) (end - (start + count))) keeps low
              (omega arith) (omega arith) (omega arith))
            (rw
              (window-append f start count (start + count) (end - (start + count)) (end - start)
                refl (omega arith))
              refl)))
]

-- The data behind the bytes that are dropped at once, and where it stands.
left_of_data :
    (f : ℕ → ℕ) (start new_start n : ℕ) (published : List ℕ)
    → published ≡ window f start n
    → new_start ≤ start + n
    → (if ltb start new_start then drop (new_start - start) published else published)
      ≡ window f (max new_start start) (start + n - max new_start start)
left_of_data f start new_start n published e le = rw e (elim (Bool-cases (ltb start new_start)) [
  | inl t ↦
      let lt = ltb→lt start new_start t in
      rw t (
        drop-window f (new_start - start) start n (max new_start start)
          (start + n - max new_start start) (omega arith) (omega arith) (omega arith))
  | inr t ↦ rw t (
      window_at f start (max new_start start) n (start + n - max new_start start) (ground arith)
        (ground arith))
])

pub append_next-Keeps :
    (f : ℕ → ℕ) (published : List ℕ) (h : MemoryHistory)
    → published ≡ window f h.end (length published)
    → Keeps f h
    → Keeps f (append_next h.end published h)
unfolding append_next
append_next-Keeps f published h e keeps =
    let n = length published in
    let new_start = max h.start (h.end + n - h.max_size) in
    let position = max new_start h.end in
    let left = left_of_data f h.end new_start n published e (omega (arith, keeps.ordered)) in
    let at : (if ltb h.end new_start then new_start else h.end) ≡ position = ground arith in
    let rest = h.end + n - position in
    record {
      ordered = omega (arith, keeps.ordered);
      holds =
          rw (at, left)
            (subst
              (λ p. Holds f new_start p (
                fill (length (window f position rest)) position (window f position rest)
                  (trim_first h.start new_start (evict h.start h.end new_start h.blocks))))
              (omega (arith, keeps.ordered))
              (fill-Holds (length (window f position rest)) f new_start position rest
                (window f position rest) _ (omega arith)
                (omega (arith, length-window f position rest)) refl
                (kept-Holds f h.start h.end new_start h.blocks (omega arith) keeps.holds)));
    }
