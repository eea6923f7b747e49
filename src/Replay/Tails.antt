-- ===== src/Replay/Tails.antt =====
-- The last lines of a stream, and the tail that `_select_tail` finds
-- (src/comfyui_docker_helper/container/runtime/log_query.py).
use comfyui_docker_helper.Prelude.{
  ℕ, suc, ◌+◌, ◌-◌, ◌≤◌, ◌<◌, Bool, true, false, not, lt_or_le, ltb, ◌==◌, ◌&&◌, arith, ◌≡◌, subst,
  refl, sym, inl, inr, ◌⊎◌,
}
use comfyui_docker_helper.Replay.{line_feed, Selection}
use comfyui_docker_helper.Replay.Lines.{count_lf, count_lf-split, count_lf-one, one_if}
use comfyui_docker_helper.Replay.Search.{Seen, Begins, wanted}
use comfyui_docker_helper.Replay.Selecting.{Suffix}

-- The lines of the stream from a to b, the last one with or without its line feed.
pub lines : (ℕ → ℕ) → ℕ → ℕ → ℕ
lines f a b = count_lf f a (b - a) + one_if (ltb a b && not (f (b - 1) == line_feed))

-- The stream from `at` to `high` is the longest end of what is kept from `low` on that has no more
-- than n lines.
pub record IsTail (f : ℕ → ℕ) (low high n at : ℕ) : Type 0 where
  pub above : low ≤ at
  pub below : at ≤ high
  pub few : lines f at high ≤ n
  pub longest : (q : ℕ) → low ≤ q → q < at → n < lines f q high

Begins-few : (f : ℕ → ℕ) (high n at : ℕ) → Begins f high n at → lines f at high ≤ n
unfolding lines
Begins-few f high n at b = ground (arith, b.count, b.below, b.after)

Begins-longest : (f : ℕ → ℕ) (high n at q : ℕ) → Begins f high n at → q < at → n < lines f q high
unfolding lines
Begins-longest f high n at q b lt = ground (
  arith,
  b.count,
  b.below,
  b.after,
  b.positive,
  count_lf-one f (at - 1) b.after,
  count_lf-split f (at - 1) 1 at (high - at) (high - (at - 1)) (omega (arith, b.positive))
      (omega (arith, b.positive, b.below)),
  count_lf-split f q (at - 1 - q) (at - 1) (high - (at - 1)) (high - q) (omega arith)
      (omega (arith, b.below, b.positive)),
)

Seen-few :
    (f : ℕ → ℕ) (high n low : ℕ) (first : Bool) (r : ℕ)
    → Seen f high n low first r
    → low < high
    → lines f low high ≤ n
unfolding lines
Seen-few f high n low true r seen lt = absurd (omega (arith, seen.start refl))
Seen-few f high n low false r seen lt = ground (arith, seen.count refl, seen.more)

pub suffix-IsTail :
    (Lost : Type 0) (f : ℕ → ℕ) (low high n : ℕ) (s : Selection)
    → low < high
    → (suffix : Suffix Lost f high n low low s) → IsTail f low high n suffix.at
suffix-IsTail Lost f low high n s lt suffix = case suffix.at suffix.above suffix.begins
  where
    case :
        (at : ℕ)
        → low ≤ at
        → (Begins f high n at
            ⊎ ((at ≡ low) × ((first : Bool) × (r : ℕ) × Seen f high n low first r)))
        → IsTail f low high n at
    case at le (inl b) = record {
      above = le;
      below = b.below;
      few = Begins-few f high n at b;
      longest = λ q a c. Begins-longest f high n at q b c;
    }
    case at le (inr (e, (first, r, seen))) = record {
      above = le;
      below = omega arith;
      few = subst (λ p. lines f p high ≤ n) (sym e) (Seen-few f high n low first r seen lt);
      longest = λ q a c. absurd (omega arith);
    }

Begins-before : (f : ℕ → ℕ) (high n at : ℕ) → 0 < n → Begins f high n at → at < high
unfolding count_lf
Begins-before f high n at pos b = elim (lt_or_le at high) [
  | inl lt ↦ lt
  | inr ge ↦ at_end (omega (arith, b.below))
]
  where
    at_end : at ≡ high → at < high
    at_end e =
        let nothing : high - at ≡ 0 = omega arith in
        let all = b.count in
        let before = b.after in
        let one : suc 0 ≡ wanted f high n =
          subst (λ k. suc (count_lf f at k) ≡ wanted f high n) nothing all in
        let there : f (high - 1) ≡ line_feed = subst (λ k. f (k - 1) ≡ line_feed) e before in
        absurd (ground arith)

pub suffix_before :
    (Lost : Type 0) (f : ℕ → ℕ) (low high n : ℕ) (s : Selection)
    → low < high
    → 0 < n
    → (suffix : Suffix Lost f high n low low s) → suffix.at < high
suffix_before Lost f low high n s lt pos suffix = case suffix.at suffix.begins
  where
    case :
        (at : ℕ)
        → (Begins f high n at
            ⊎ ((at ≡ low) × ((first : Bool) × (r : ℕ) × Seen f high n low first r)))
        → at < high
    case at (inl b) = Begins-before f high n at pos b
    case at (inr (e, seen)) = omega arith
