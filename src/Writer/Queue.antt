-- ===== src/Writer/Queue.antt =====
-- What `enqueue` does to the writer's queue
-- (src/comfyui_docker_helper/container/runtime/log_storage.py).
use comfyui_docker_helper.Prelude.{
  ℕ, ◌+◌, ◌-◌, ◌/◌, ◌≤◌, min, List, [], ◌∷◌, ◌++◌, length, length-append, length-drop, take, drop,
  total, total-append, ltb, ltb→lt, split_last, split_last_lem, arith, ◌≡◌, refl, sym, subst, ap,
  ◌∙◌, Bool-cases, Option-cases, inl, inr,
}
use comfyui_docker_helper.History.{log_block_bytes}
use comfyui_docker_helper.History.Windows.{
  window, window-append, length-window, take-window, drop-window,
}
use comfyui_docker_helper.Writer.{QueuedBytes, cut_blocks, fill_last}
use comfyui_docker_helper.Writer.Blocks.{
  Pending, Pending-append, Pending-last, size_of, cut_blocks-Pending, total-cut_blocks,
  length-cut_blocks,
}

-- The queue with more bytes behind it.
pub record Extended (f : ℕ → ℕ) (low start : ℕ) (bytes : List ℕ) (queue extended : List QueuedBytes)
    : Type 0 where
  pub pending : Pending f low (start + length bytes) extended
  pub few : length extended ≤ length queue + (length bytes + log_block_bytes - 1) / log_block_bytes
  pub size : total size_of extended ≡ total size_of queue + length bytes

module _ (f : ℕ → ℕ) (low start : ℕ) (bytes : List ℕ)
    (content : bytes ≡ window f start (length bytes)) where
  -- All of the data in new blocks.
  new_blocks :
      (queue : List QueuedBytes)
      → Pending f low start queue
      → Extended f low start bytes queue
          (queue ++ cut_blocks log_block_bytes (length bytes) start bytes)
  new_blocks queue pending =
      let blocks = cut_blocks log_block_bytes (length bytes) start bytes in
      record {
        pending = Pending-append f low start (start + length bytes) queue blocks pending (
            cut_blocks-Pending log_block_bytes (omega arith) (omega arith) f (length bytes) start
              (length bytes) (start + length bytes) bytes (omega arith) refl content);
        few =
            omega
              (arith, length-append {0} queue blocks, length-cut_blocks (length bytes) start bytes);
        size = omega (
          arith,
          total-append {0} size_of queue blocks,
          total-cut_blocks log_block_bytes (omega arith) (omega arith) (length bytes) start bytes
              (omega arith),
        );
      }

  -- The last block is filled up first.
  filled_up :
      (before : List QueuedBytes) (last : QueuedBytes) (count : ℕ)
      → Pending f low start (before ++ last ∷ [])
      → count ≤ length bytes
      → length last.bytes + count ≤ log_block_bytes
      → Extended f low start bytes (before ++ last ∷ []) (
          before
          ++ (record last { bytes = last.bytes ++ take count bytes }
              ∷ cut_blocks log_block_bytes
                  (length (drop count bytes))
                  (start + count)
                  (drop count bytes)))
  filled_up before last count pending le room =
      let n = length bytes in
      let (early, block, ends) = Pending-last f low start before last pending in
      let left = drop count bytes in
      let blocks = cut_blocks log_block_bytes (length left) (start + count) left in
      let part : take count bytes ≡ window f start count =
        ap (take count) content ∙ take-window f count start n le in
      let rest : length left ≡ n - count = length-drop {0} count bytes in
      let size : length (last.bytes ++ take count bytes) ≡ length last.bytes + count =
        length-append last.bytes (take count bytes)
        ∙ ap (λ k. length last.bytes + k) (ap length part ∙ length-window f start count) in
      let filled : QueuedBytes = record last { bytes = last.bytes ++ take count bytes } in
      let whole : filled.bytes ≡ window f last.start (length filled.bytes) =
        ap (λ r. r ++ take count bytes) block.content
        ∙ ap (λ r. window f last.start (length last.bytes) ++ r) part
        ∙ window-append f last.start (length last.bytes) start count (length filled.bytes) ends
            (sym size) in
      let behind : Pending f (start + count) (start + n) blocks =
        cut_blocks-Pending log_block_bytes (omega arith) (omega arith) f (length left)
          (start + count) (length left) (start + n) left (omega arith) (omega arith)
          (ap (drop count) content
            ∙ drop-window f count start n (start + count) (length left) refl (sym rest) le) in
      let at : last.start + length filled.bytes ≡ start + count = omega arith in
      let tail : Pending f last.start (start + n) (filled ∷ blocks) = (
        record { filled = omega (arith, block.filled); small = omega arith; content = whole },
        refl,
        subst (λ k. Pending f k (start + n) blocks) (sym at) behind,
      ) in
      record {
        pending = Pending-append f low last.start (start + n) before (filled ∷ blocks) early tail;
        few = omega (
          arith,
          length-append {0} before (filled ∷ blocks),
          length-append {0} before (last ∷ []),
          length-cut_blocks (length left) (start + count) left,
        );
        size = omega (
          arith,
          total-append {0} size_of before (filled ∷ blocks),
          total-append {0} size_of before (last ∷ []),
          total-cut_blocks log_block_bytes (omega arith) (omega arith) (length left) (start + count)
              left (omega arith),
        );
      }

  pub fill_last-Extended :
      (queue : List QueuedBytes)
      → Pending f low start queue
      → Extended f low start bytes queue (fill_last (split_last queue) queue start bytes)
  fill_last-Extended queue pending = elim (Option-cases (split_last queue)) [
    | inl nothing ↦ rw nothing (new_blocks queue pending)
    | inr ((before, last), e) ↦ elim (Bool-cases (ltb (length last.bytes) log_block_bytes)) [
      | inr full ↦ rw (e, full) (new_blocks queue pending)
      | inl room ↦
          let whole = split_last_lem queue before last e in
          let lt = ltb→lt (length last.bytes) log_block_bytes room in
          rw (e, room)
            (subst
              (λ q. Extended f low start bytes q (
                before
                ++ (record last {
                  bytes =
                      last.bytes
                      ++ take (min (log_block_bytes - length last.bytes) (length bytes)) bytes;
                }
                    ∷ cut_blocks log_block_bytes
                        (length
                          (drop (min (log_block_bytes - length last.bytes) (length bytes)) bytes))
                        (start + min (log_block_bytes - length last.bytes) (length bytes))
                        (drop (min (log_block_bytes - length last.bytes) (length bytes)) bytes))))
              (sym whole)
              (filled_up before last (min (log_block_bytes - length last.bytes) (length bytes))
                (subst (Pending f low start) whole pending) (omega arith) (omega arith)))
    ]
  ]
