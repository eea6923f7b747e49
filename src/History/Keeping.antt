-- ===== src/History/Keeping.antt =====
-- `append` of the memory history keeps the blocks that it should
-- (src/comfyui_docker_helper/container/runtime/log_history.py).
use comfyui_docker_helper.Prelude.{
  ℕ, zero, suc, ◌+◌, ◌-◌, ◌*◌, ◌/◌, ◌%◌, ◌≤◌, ◌<◌, min, max, List, ◌++◌, Bool-cases, lt_or_le,
  length, drop, Option, none, some, is_some, if◌then◌else◌, leb, ltb, ◌==◌, ◌&&◌, arith, ◌≡◌, refl,
  sym, subst, ap, inl, inr,
}
use comfyui_docker_helper.History.{
  log_block_bytes, Blocks, put, block_or_empty, evict, trim_first, fill,
}
use comfyui_docker_helper.History.Windows.{window, length-window, drop-window, take-window}
use comfyui_docker_helper.History.Blocks.{
  block_at, Holds, pop_keys_lem, put-Holds, block_at-none, block_at-some,
}

-- What is left of the data is a run of the stream.
pub fill-Holds :
    (fuel : ℕ) (f : ℕ → ℕ) (start position n : ℕ) (left : List ℕ) (blocks : Blocks)
    → start ≤ position
    → n ≤ fuel
    → left ≡ window f position n
    → Holds f start position blocks
    → Holds f start (position + n) (fill fuel position left blocks)
unfolding fill
fill-Holds zero f start position n left blocks le enough e h =
    let none_left : position ≡ position + n = omega arith in
    subst (λ p. Holds f start p blocks) none_left h
fill-Holds (suc fuel) f start position n left blocks le enough e h =
    let size : length left ≡ n = rw e (length-window f position n) in
    let count = min n (log_block_bytes - position % log_block_bytes) in
    rw (size, fill)
      (elim (Bool-cases (n == 0)) [
        | inl z ↦ rw z (
            let none_left : position ≡ position + n = ground arith in
            subst (λ p. Holds f start p blocks) none_left h)
        | inr s ↦
            rw (s, e, take-window f count position n (omega arith))
              (subst
                (λ p. Holds f start p (
                  fill fuel (position + count) (drop count (window f position n)) (
                    put (position / log_block_bytes)
                      (block_or_empty (blocks (position / log_block_bytes))
                        ++ window f position count)
                      blocks)))
                (omega arith)
                (fill-Holds fuel f start (position + count) (n - count)
                  (drop count (window f position n)) _ (omega arith) (omega arith)
                  (drop-window f count position n (position + count) (n - count) refl refl
                    (omega arith))
                  (put-Holds f start position count blocks le (ground arith) (omega arith) h)))
      ])

evict_lem :
    (old_start old_end start : ℕ) (blocks : Blocks) (k : ℕ)
    → old_start ≤ start
    → evict old_start old_end start blocks k ≡ (
        if leb old_end start
        then none
        else if leb (old_start / log_block_bytes) k && ltb k (start / log_block_bytes)
        then none
        else blocks k)
unfolding evict
evict_lem old_start old_end start blocks k le = elim (Bool-cases (leb old_end start)) [
  | inl e ↦ rw e refl
  | inr e ↦ rw e (
      rw
        (pop_keys_lem (start / log_block_bytes - old_start / log_block_bytes)
          (old_start / log_block_bytes) blocks k)
        (let same : old_start / log_block_bytes
                + (start / log_block_bytes - old_start / log_block_bytes)
              ≡ start / log_block_bytes =
            omega arith in
          rw same refl))
]

trim_first_lem :
    (old_start start : ℕ) (blocks : Blocks) (k : ℕ)
    → trim_first old_start start blocks k ≡ (
        if k == start / log_block_bytes && (is_some (blocks k) && ltb old_start start)
        then some (drop (start - max old_start (k * log_block_bytes)) (block_or_empty (blocks k)))
        else blocks k)
unfolding trim_first put
trim_first_lem old_start start blocks k = elim (Bool-cases (k == start / log_block_bytes)) [
  | inl e ↦ let same : k ≡ start / log_block_bytes = ground arith in rw same (ground arith)
  | inr e ↦ rw e (ground arith)
]

-- A block with the first bytes off it.
trimmed_block :
    (f : ℕ → ℕ) (old_start old_end start : ℕ)
    → old_start < start
    → start < old_end
    → some (
        drop
          (start - max old_start (start / log_block_bytes * log_block_bytes))
          (block_or_empty (block_at f old_start old_end (start / log_block_bytes))))
      ≡ block_at f start old_end (start / log_block_bytes)
trimmed_block f old_start old_end start lt inside =
    let k = start / log_block_bytes in
    let low = max old_start (k * log_block_bytes) in
    let high = min old_end (k * log_block_bytes + log_block_bytes) in
    rw (block_at-some f old_start old_end k low (high - low) refl (omega arith) (omega arith)) (
      rw
        (block_at-some f start old_end k start (high - start) (omega arith) (omega arith)
          (omega arith))
        (ap some (
          drop-window f (start - low) low (high - low) start (high - start) (omega arith)
            (omega arith) (omega arith))))

-- What is left of a block once the eviction and the trimming are done.
abbrev evicted : ℕ → ℕ → ℕ → ℕ → Option (List ℕ) → Option (List ℕ)
evicted old_start old_end start k block =
    if leb old_end start
    then none
    else if leb (old_start / log_block_bytes) k && ltb k (start / log_block_bytes)
    then none
    else block

abbrev trimmed : ℕ → ℕ → ℕ → Option (List ℕ) → Option (List ℕ)
trimmed old_start start k block =
    if k == start / log_block_bytes && (is_some block && ltb old_start start)
    then some (drop (start - max old_start (k * log_block_bytes)) (block_or_empty block))
    else block

module _ (f : ℕ → ℕ) (old_start old_end start k : ℕ) (le : old_start ≤ start) where
  kept_out :
      old_end ≤ start
      → trimmed old_start start k
          (evicted old_start old_end start k (block_at f old_start old_end k))
        ≡ block_at f start (max start old_end) k
  kept_out out = ground (arith, block_at-none f start (max start old_end) k (omega arith))

  kept_still :
      start < old_end
      → start ≤ old_start
      → trimmed old_start start k
          (evicted old_start old_end start k (block_at f old_start old_end k))
        ≡ block_at f start (max start old_end) k
  kept_still inside still =
      let same : start ≡ old_start = omega arith in
      let top : max start old_end ≡ old_end = omega arith in rw (top, same) (ground arith)

  kept_before :
      start < old_end
      → k < start / log_block_bytes
      → trimmed old_start start k
          (evicted old_start old_end start k (block_at f old_start old_end k))
        ≡ block_at f start (max start old_end) k
  kept_before inside before =
      rw (block_at-none f start (max start old_end) k (omega arith))
        (elim (lt_or_le k (old_start / log_block_bytes)) [
          | inl early ↦ rw (block_at-none f old_start old_end k (omega arith)) (ground arith)
          | inr later ↦ ground arith
        ])

  kept_here :
      start < old_end
      → old_start < start
      → k ≡ start / log_block_bytes
      → trimmed old_start start k
          (evicted old_start old_end start k (block_at f old_start old_end k))
        ≡ block_at f start (max start old_end) k
  kept_here inside moved here =
      let top : max start old_end ≡ old_end = omega arith in
      let low = max old_start (k * log_block_bytes) in
      let high = min old_end (k * log_block_bytes + log_block_bytes) in
      let old =
        block_at-some f old_start old_end k low (high - low) refl (omega arith) (omega arith) in
      let new = trimmed_block f old_start old_end start moved inside in
      rw top (
        ground (
          arith,
          old,
          subst
              (λ q.
                some (
                  drop (start - max old_start (q * log_block_bytes))
                    (block_or_empty (block_at f old_start old_end q)))
                ≡ block_at f start old_end q)
              (sym here) new,
        ))

  kept_after :
      start < old_end
      → start / log_block_bytes < k
      → trimmed old_start start k
          (evicted old_start old_end start k (block_at f old_start old_end k))
        ≡ block_at f start (max start old_end) k
  unfolding block_at
  kept_after inside after =
      let top : max start old_end ≡ old_end = omega arith in
      let low : max start (k * log_block_bytes) ≡ k * log_block_bytes = omega arith in
      let low' : max old_start (k * log_block_bytes) ≡ k * log_block_bytes = omega arith in
      rw (top, low, low') (ground arith)

-- What `append` keeps of the old blocks when the start moves on.
pub kept-Holds :
    (f : ℕ → ℕ) (old_start old_end start : ℕ) (blocks : Blocks)
    → old_start ≤ start
    → Holds f old_start old_end blocks
    → Holds f start
        (max start old_end)
        (trim_first old_start start (evict old_start old_end start blocks))
unfolding Holds
kept-Holds f old_start old_end start blocks le h k =
    rw
      (
        trim_first_lem old_start start (evict old_start old_end start blocks) k,
        evict_lem old_start old_end start blocks k le,
        h k,
      )
      (elim (lt_or_le start old_end) [
        | inr out ↦ kept_out f old_start old_end start k le out
        | inl inside ↦ elim (lt_or_le old_start start) [
          | inr still ↦ kept_still f old_start old_end start k le inside still
          | inl moved ↦ elim (lt_or_le k (start / log_block_bytes)) [
            | inl before ↦ kept_before f old_start old_end start k le inside before
            | inr after ↦ elim (lt_or_le (start / log_block_bytes) k) [
              | inl later ↦ kept_after f old_start old_end start k le inside later
              | inr here ↦ kept_here f old_start old_end start k le inside moved (omega arith)
            ]
          ]
        ]
      ])
