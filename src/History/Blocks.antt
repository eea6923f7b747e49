-- ===== src/History/Blocks.antt =====
-- The blocks that a memory history should hold, and how the steps of `append` keep them
-- (src/comfyui_docker_helper/container/runtime/log_history.py).
use comfyui_docker_helper.Prelude.{
  ℕ, zero, suc, ◌+◌, ◌-◌, ◌*◌, ◌/◌, ◌%◌, ◌≤◌, ◌<◌, min, max, List, ◌++◌, Option, none, some,
  if◌then◌else◌, leb, ltb, ◌==◌, ◌&&◌, arith, ◌≡◌, ◌≢◌, refl, sym, ap, ◌∙◌, ◌⊎◌, ◌∙◌, inl, inr,
  Bool-cases, ltb→lt, lt_or_le,
}
use comfyui_docker_helper.History.{log_block_bytes, Blocks, pop, pop_keys, put, block_or_empty}
use comfyui_docker_helper.History.Windows.{window, window_at, window-append, window_ext}

-- The block of a key, where the bytes from `start` to `end` are kept.
unfoldable pub block_at : (ℕ → ℕ) → ℕ → ℕ → ℕ → Option (List ℕ)
block_at f start end k =
    let low = max start (k * log_block_bytes) in
    let high = min end (k * log_block_bytes + log_block_bytes) in
    if ltb low high then some (window f low (high - low)) else none

-- The blocks are the bytes of the stream from `start` to `end`.
unfoldable pub Holds : (ℕ → ℕ) → ℕ → ℕ → Blocks → Type 0
Holds f start end blocks = (k : ℕ) → blocks k ≡ block_at f start end k

pub pop_keys_lem :
    (n key : ℕ) (blocks : Blocks) (k : ℕ)
    → pop_keys n key blocks k ≡ (if leb key k && ltb k (key + n) then none else blocks k)
unfolding pop_keys pop
pop_keys_lem zero key blocks k = ground arith
pop_keys_lem (suc n) key blocks k = ground (arith, pop_keys_lem n (key + 1) (pop key blocks) k)

pub block_at-none :
    (f : ℕ → ℕ) (start end k : ℕ)
    → min end (k * log_block_bytes + log_block_bytes) ≤ max start (k * log_block_bytes)
    → block_at f start end k ≡ none
unfolding block_at
block_at-none f start end k le = ground arith

pub block_at-some :
    (f : ℕ → ℕ) (start end k low size : ℕ)
    → low ≡ max start (k * log_block_bytes)
    → low + size ≡ min end (k * log_block_bytes + log_block_bytes)
    → 0 < size
    → block_at f start end k ≡ some (window f low size)
unfolding block_at
block_at-some f start end k low size e d pos = ground (
  arith,
  window_at f (max start (k * log_block_bytes)) low
      (min end (k * log_block_bytes + log_block_bytes) - max start (k * log_block_bytes)) size,
)

pub block_at_kept :
    (f : ℕ → ℕ) (start end end' k : ℕ)
    → (min end (k * log_block_bytes + log_block_bytes)
        ≡ min end' (k * log_block_bytes + log_block_bytes))
      ⊎ ((end ≤ max start (k * log_block_bytes)) × (end' ≤ max start (k * log_block_bytes)))
    → block_at f start end k ≡ block_at f start end' k
unfolding block_at
block_at_kept f start end end' k (inl e) = rw e refl
block_at_kept f start end end' k (inr (a, b)) = ground arith

-- What a block holds before a turn of the loop adds to it.
block_or_empty-block_at :
    (f : ℕ → ℕ) (start position : ℕ)
    → start ≤ position
    → block_or_empty (block_at f start position (position / log_block_bytes))
      ≡ window f
          (max start (position / log_block_bytes * log_block_bytes))
          (position - max start (position / log_block_bytes * log_block_bytes))
unfolding block_at
block_or_empty-block_at f start position le = ground arith

put_here : (key : ℕ) (block : List ℕ) (blocks : Blocks) → put key block blocks key ≡ some block
unfolding put
put_here key block blocks = ground arith

-- A turn adds `count` bytes to the block of `position`.
filled_block :
    (f : ℕ → ℕ) (start position count : ℕ) (block : Option (List ℕ))
    → start ≤ position
    → 0 < count
    → position % log_block_bytes + count ≤ log_block_bytes
    → block ≡ block_at f start position (position / log_block_bytes)
    → some (block_or_empty block ++ window f position count)
      ≡ block_at f start (position + count) (position / log_block_bytes)
filled_block f start position count block le pos fits e =
    let low = max start (position / log_block_bytes * log_block_bytes) in
    rw (e, block_or_empty-block_at f start position le)
      (rw
        (window-append f low (position - low) position count (position + count - low) (omega arith)
          (omega arith))
        (sym (
          block_at-some f start (position + count) (position / log_block_bytes) low
            (position + count - low) refl (omega arith) (omega arith))))

pub put-Holds :
    (f : ℕ → ℕ) (start position count : ℕ) (blocks : Blocks)
    → start ≤ position
    → 0 < count
    → position % log_block_bytes + count ≤ log_block_bytes
    → Holds f start position blocks
    → Holds f start (position + count) (
        put
          (position / log_block_bytes)
          (block_or_empty (blocks (position / log_block_bytes)) ++ window f position count)
          blocks)
unfolding Holds put
put-Holds f start position count blocks le pos fits h k =
    elim (Bool-cases (k == position / log_block_bytes)) [
      | inl e ↦ rw e (
          let same : k ≡ position / log_block_bytes = ground arith in
          rw same (
            filled_block f start position count (blocks (position / log_block_bytes)) le pos fits
              (h (position / log_block_bytes))))
      | inr e ↦ rw (e, h k) (other (ground arith))
    ]
  where
    other :
        k ≢ position / log_block_bytes
        → block_at f start position k ≡ block_at f start (position + count) k
    other ne = elim (lt_or_le k (position / log_block_bytes)) [
      | inl lt ↦ block_at_kept f start position (position + count) k (inl (omega arith))
      | inr ge ↦
          block_at_kept f start position (position + count) k (inr (omega arith, omega arith))
    ]

-- Holding the bytes depends on the bytes held only.
pub Holds-ext :
    (f g : ℕ → ℕ) (start end : ℕ) (blocks : Blocks)
    → ((i : ℕ) → start ≤ i → i < end → f i ≡ g i)
    → Holds f start end blocks
    → Holds g start end blocks
unfolding Holds block_at
Holds-ext f g start end blocks same h k =
    let low = max start (k * log_block_bytes) in
    let high = min end (k * log_block_bytes + log_block_bytes) in
    h k ∙ elim (Bool-cases (ltb low high)) [
      | inr e ↦ rw e refl
      | inl e ↦
          let lt = ltb→lt low high e in
          rw e (
            ap some (window_ext f g low (high - low) (λ i a b. same i (omega arith) (omega arith))))
    ]

pub Holds-empty : (f : ℕ → ℕ) (start : ℕ) → Holds f start start (λ k. none)
unfolding Holds
Holds-empty f start k = sym (block_at-none f start start k (omega arith))
