-- ===== src/Writer/Blocks.antt =====
-- The blocks of the writer's queue (src/comfyui_docker_helper/container/runtime/log_storage.py).
use comfyui_docker_helper.Prelude.{
  ℕ, zero, suc, ◌+◌, ◌-◌, ◌/◌, ◌≤◌, ◌<◌, min, true, List, [], ◌∷◌, ◌++◌, length, length-take,
  length-drop, take, drop, total, if◌then◌else◌, ◌==◌, arith, ◌≡◌, refl, sym, subst, ap, ◌∙◌,
  Bool-cases, lt_or_le, inl, inr,
}
use comfyui_docker_helper.History.{log_block_bytes}
use comfyui_docker_helper.History.Windows.{window, length-window, take-window-min, drop-window}
use comfyui_docker_helper.Writer.{QueuedBytes, cut_blocks}

-- A block of the stream, neither empty nor too large.
pub record Block (f : ℕ → ℕ) (item : QueuedBytes) : Type 0 where
  pub filled : 0 < length item.bytes
  pub small : length item.bytes ≤ log_block_bytes
  pub content : item.bytes ≡ window f item.start (length item.bytes)

-- Blocks that stand end to end from `low` to `high`.
abbrev pub Pending : (ℕ → ℕ) → ℕ → ℕ → List QueuedBytes → Type 0
Pending f low high [] = low ≡ high
Pending f low high (item ∷ items) =
    Block f item × (item.start ≡ low) × Pending f (item.start + length item.bytes) high items

abbrev pub size_of : QueuedBytes → ℕ
size_of item = length item.bytes

pub Pending-append :
    (f : ℕ → ℕ) (low middle high : ℕ) (xs ys : List QueuedBytes)
    → Pending f low middle xs
    → Pending f middle high ys
    → Pending f low high (xs ++ ys)
Pending-append f low middle high [] ys p q = subst (λ k. Pending f k high ys) (sym p) q
Pending-append f low middle high (item ∷ xs) ys (block, at, p) q =
    (block, at, Pending-append f (item.start + length item.bytes) middle high xs ys p q)

pub Pending-last :
    (f : ℕ → ℕ) (low high : ℕ) (before : List QueuedBytes) (last : QueuedBytes)
    → Pending f low high (before ++ last ∷ [])
    → Pending f low last.start before × Block f last × (last.start + length last.bytes ≡ high)
Pending-last f low high [] last (block, at, e) = (sym at, block, e)
Pending-last f low high (item ∷ before) last (block, at, p) =
    let (q, b, e) = Pending-last f (item.start + length item.bytes) high before last p in
    ((block, at, q), b, e)

cut_nothing :
    (block fuel start : ℕ) (bytes : List ℕ)
    → length bytes ≡ 0
    → cut_blocks block fuel start bytes ≡ []
unfolding cut_blocks
cut_nothing block zero start bytes e = refl
cut_nothing block (suc fuel) start bytes e =
    let none_left : (length bytes == 0) ≡ true = ground arith in rw none_left refl

module _ (block : ℕ) (some_room : 0 < block) (small : block ≤ log_block_bytes) where
  -- The blocks of a run of the stream.
  pub cut_blocks-Pending :
      (f : ℕ → ℕ) (fuel start n high : ℕ) (bytes : List ℕ)
      → n ≤ fuel
      → start + n ≡ high
      → bytes ≡ window f start n
      → Pending f start high (cut_blocks block fuel start bytes)
  unfolding cut_blocks
  cut_blocks-Pending f zero start n high bytes enough e b = omega arith
  cut_blocks-Pending f (suc fuel) start n high bytes enough e b =
      let size : length bytes ≡ n = ap length b ∙ length-window f start n in
      let first : take block bytes ≡ window f start (min block n) =
        ap (take block) b ∙ take-window-min f block start n in
      let count : length (take block bytes) ≡ min block n =
        ap length first ∙ length-window f start (min block n) in
      elim (Bool-cases (length bytes == 0)) [
        | inl z ↦ rw z (ground arith)
        | inr some_left ↦ rw some_left (
          record {
            filled = ground arith;
            small = omega arith;
            content = first ∙ ap (window f start) (sym count);
          },
          refl,
          elim (lt_or_le block n) [
            | inl more ↦
                let width : start + length (take block bytes) ≡ start + block = omega arith in
                rw width (
                  cut_blocks-Pending f fuel (start + block) (n - block) high (drop block bytes)
                    (omega arith) (omega arith)
                    (ap (drop block) b
                      ∙ drop-window f block start n (start + block) (n - block) refl refl
                          (omega arith)))
            | inr last ↦
                let nothing : length (drop block bytes) ≡ 0 =
                  omega (arith, length-drop {0} block bytes) in
                rw (cut_nothing block fuel (start + block) (drop block bytes) nothing) (omega arith)
          ],
        )
      ]

  pub total-cut_blocks :
      (fuel start : ℕ) (bytes : List ℕ)
      → length bytes ≤ fuel
      → total size_of (cut_blocks block fuel start bytes) ≡ length bytes
  unfolding cut_blocks
  total-cut_blocks zero start bytes enough = omega arith
  total-cut_blocks (suc fuel) start bytes enough = ground (
    arith,
    total-cut_blocks fuel (start + block) (drop block bytes),
    length-drop {0} block bytes,
    length-take {0} block bytes,
  )

-- The number of blocks of n bytes.
count_blocks : ℕ → ℕ → ℕ → ℕ
count_blocks block zero n = 0
count_blocks block (suc fuel) n =
    let rest = count_blocks block fuel (n - block) in if n == 0 then 0 else suc rest

length-cut_blocks_count :
    (block fuel start : ℕ) (bytes : List ℕ)
    → length (cut_blocks block fuel start bytes) ≡ count_blocks block fuel (length bytes)
unfolding cut_blocks count_blocks
length-cut_blocks_count block zero start bytes = refl
length-cut_blocks_count block (suc fuel) start bytes =
    let rest = length-cut_blocks_count block fuel (start + block) (drop block bytes) in
    let size = length-drop {0} block bytes in
    ground (arith, rest, size, ap (count_blocks block fuel) size)

count_blocks-le :
    (fuel n : ℕ) → count_blocks log_block_bytes fuel n ≤ (n + log_block_bytes - 1) / log_block_bytes
unfolding count_blocks
count_blocks-le zero n = omega arith
count_blocks-le (suc fuel) n = ground (arith, count_blocks-le fuel (n - log_block_bytes))

pub length-cut_blocks :
    (fuel start : ℕ) (bytes : List ℕ)
    → length (cut_blocks log_block_bytes fuel start bytes)
      ≤ (length bytes + log_block_bytes - 1) / log_block_bytes
length-cut_blocks fuel start bytes = omega (
  arith,
  length-cut_blocks_count log_block_bytes fuel start bytes,
  count_blocks-le fuel (length bytes),
)
