-- ===== src/History.antt =====
-- src/comfyui_docker_helper/container/runtime/log_history.py: the bounded memory history of the
-- runtime's output, a run of blocks that are addressed by publication offsets. The dictionary of
-- blocks is a function; a byte is a number. A method that raises leaves the history as it was.
pub mod Windows
pub mod Blocks
pub mod Keeping
pub mod Reading
pub mod Streams
pub mod Refinement
mod Examples
use comfyui_docker_helper.Prelude.{
  ℕ, zero, suc, ◌+◌, ◌-◌, ◌*◌, ◌/◌, ◌%◌, min, max, Bool, true, false, not, List, [], ◌++◌, length,
  take, drop, Option, none, some, is_some, if◌then◌else◌, leb, ltb, ◌==◌, ◌&&◌, ◌||◌,
}

abbrev pub log_block_bytes : ℕ
log_block_bytes = 16384

abbrev pub log_read_bytes : ℕ
log_read_bytes = 65536

pub record ByteRange : Type 0 where
  pub start : ℕ
  pub end : ℕ

abbrev pub Blocks : Type 0
Blocks = ℕ → Option (List ℕ)

pub record MemoryHistory : Type 0 where
  pub max_size : ℕ
  pub start : ℕ
  pub end : ℕ
  pub blocks : Blocks

-- `__init__`; none is the error for a capacity that is not positive.
unfoldable pub new_history : ℕ → ℕ → Option MemoryHistory
new_history max_size start =
    if max_size == 0
    then none
    else some (record { max_size = max_size; start = start; end = start; blocks = λ k. none })

-- `self._blocks.pop(key, None)`
unfoldable pub pop : ℕ → Blocks → Blocks
pop key blocks k = if k == key then none else blocks k

-- The loop of `append` over `range(key, key + n)`.
unfoldable pub pop_keys : ℕ → ℕ → Blocks → Blocks
pop_keys zero key blocks = blocks
pop_keys (suc n) key blocks = pop_keys n (key + 1) (pop key blocks)

-- `self._blocks[key] = block`
unfoldable pub put : ℕ → List ℕ → Blocks → Blocks
put key block blocks k = if k == key then some block else blocks k

-- `self._blocks.get(key, b"")`
abbrev pub block_or_empty : Option (List ℕ) → List ℕ
block_or_empty none = []
block_or_empty (some block) = block

-- The blocks that stay when the start moves from `old_start` to `start`.
unfoldable pub evict : ℕ → ℕ → ℕ → Blocks → Blocks
evict old_start old_end start blocks =
    if leb old_end start
    then (λ k. none)
    else pop_keys (start / log_block_bytes - old_start / log_block_bytes)
        (old_start / log_block_bytes) blocks

-- The first block loses what is before `start`.
unfoldable pub trim_first : ℕ → ℕ → Blocks → Blocks
trim_first old_start start blocks =
    let first_key = start / log_block_bytes in
    let previous_start = max old_start (first_key * log_block_bytes) in
    if is_some (blocks first_key) && ltb old_start start
    then put first_key (drop (start - previous_start) (block_or_empty (blocks first_key))) blocks
    else blocks

-- The loop of `append` over what is left of the data, on fuel; `position` is its offset.
unfoldable pub fill : ℕ → ℕ → List ℕ → Blocks → Blocks
fill zero position left blocks = blocks
fill (suc fuel) position left blocks =
    let key = position / log_block_bytes in
    let count = min (length left) (log_block_bytes - position % log_block_bytes) in
    let rest =
      fill fuel (position + count) (drop count left)
        (put key (block_or_empty (blocks key) ++ take count left) blocks) in
    if length left == 0 then blocks else rest

-- `append` behind its check of the offset. A turn of the loop takes a byte at least, so the data's
-- length is fuel enough.
unfoldable pub append_next : ℕ → List ℕ → MemoryHistory → MemoryHistory
append_next start published h =
    let new_end = h.end + length published in
    let new_start = max h.start (new_end - h.max_size) in
    let left = if ltb start new_start then drop (new_start - start) published else published in
    let position = if ltb start new_start then new_start else start in
    let kept = trim_first h.start new_start (evict h.start h.end new_start h.blocks) in
    record h { start = new_start; end = new_end; blocks = fill (length left) position left kept }

-- `append`; none is the error for publications that are not sequential.
unfoldable pub append : ℕ → List ℕ → MemoryHistory → Option MemoryHistory
append start published h =
    if not (start == h.end) then none else some (append_next start published h)

unfoldable pub snapshot : MemoryHistory → ByteRange
snapshot h = record { start = h.start; end = h.end }

pub data ReadResult : Type 0 where
  bytes_read : List ℕ → ReadResult
  read_too_large history_unavailable block_missing : ReadResult

-- A turn of the loop of `read` before the others.
unfoldable pub read_part : Option (List ℕ) → ℕ → ℕ → ReadResult → ReadResult
read_part none skipped count rest = block_missing
read_part (some block) skipped count (bytes_read more) =
    bytes_read (take count (drop skipped block) ++ more)
read_part (some block) skipped count other = other

-- The loop of `read`, on fuel.
unfoldable pub read_blocks : ℕ → ℕ → ℕ → MemoryHistory → ReadResult
read_blocks zero start end h = bytes_read []
read_blocks (suc fuel) start end h =
    let key = start / log_block_bytes in
    let block_start = max h.start (key * log_block_bytes) in
    let count = min (end - start) (log_block_bytes - start % log_block_bytes) in
    let rest =
      read_part (h.blocks key) (start - block_start) count
        (read_blocks fuel (start + count) end h) in
    if ltb start end then rest else bytes_read []

-- `read`
unfoldable pub read : ℕ → ℕ → MemoryHistory → ReadResult
read start size h =
    if ltb log_read_bytes size
    then read_too_large
    else if ltb start h.start || ltb h.end (start + size)
    then history_unavailable
    else read_blocks size start (start + size) h
