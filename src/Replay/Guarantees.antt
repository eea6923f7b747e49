-- ===== src/Replay/Guarantees.antt =====
-- What a replay promises (src/comfyui_docker_helper/container/runtime/log_query.py).
use comfyui_docker_helper.Prelude.{
  ℕ, ◌-◌, ◌≤◌, ◌<◌, Bool, true, false, List, [], ◌∷◌, Option, none, reverse, append-nil, some, ◌==◌,
  ◌&&◌, arith, ◌≡◌, subst, refl, inl, inr,
}
use comfyui_docker_helper.History.Windows.{window}
use comfyui_docker_helper.Replay.{
  HistorySpan, last_end, Selection, select_back, select_tail, replay_history, replay_selected,
  LogReplayItem, replay_complete, Yielded, yield_spans, no_end, close_replay, known_incomplete,
}
use comfyui_docker_helper.Replay.Search.{Honest, Seen}
use comfyui_docker_helper.Replay.Selecting.{
  Chain, Chain-Honest, Next, Selected, select_back-Selected, StartsAbove,
}
use comfyui_docker_helper.Replay.Yielding.{
  bytes_of, is_complete, bytes_of-append, is_complete-append, Gave, yield_spans-Gave,
}
use comfyui_docker_helper.Replay.Tails.{IsTail, suffix-IsTail, suffix_before}
use comfyui_docker_helper.Replay.Reversing.{
  reverse-All, reverse-Next, reverse-JoinedBack, reverse-start_of, Chain-last_end, Chain-has_gap,
  Chain-StartsAbove,
}

-- The search over spans that stand end to end.
pub Seen-nothing : (f : ℕ → ℕ) (high n : ℕ) → 0 < n → Seen f high n high true n
Seen-nothing f high n pos = record {
  below = omega arith;
  more = pos;
  start = λ e. (refl, refl);
  count = λ e. absurd (cc e);
}

pub select_tail-Selected :
    (Lost : Type 0) (f : ℕ → ℕ) (low high n : ℕ) (spans : List HistorySpan)
    → low ≤ high
    → 0 < n
    → Chain Lost f low high spans
    → Selected Lost f high n low low (select_tail spans n)
unfolding select_tail
select_tail-Selected Lost f low high n spans le pos chain =
    subst (λ p. Selected Lost f high n low p (select_back (reverse spans) [] none true n))
      (reverse-start_of Lost f low high spans [] chain)
      (select_back-Selected Lost f high n low (reverse spans) [] none high true n
        (reverse-All (Honest Lost f) spans [] (Chain-Honest Lost f low high spans chain) tt)
        (reverse-All (StartsAbove low) spans []
          (Chain-StartsAbove Lost f low low high spans (omega arith) chain) tt)
        le
        (subst (λ p. Next none p (reverse spans)) (Chain-last_end Lost f low high spans chain)
          (reverse-Next low spans [] tt))
        (reverse-JoinedBack Lost f low high spans [] chain tt) refl (Seen-nothing f high n pos))

-- A replay of available spans that stand end to end up to the endpoint.
unfoldable pub Replayed : (ℕ → ℕ) → ℕ → ℕ → Option (List LogReplayItem) → Type 0
Replayed f at high none = ⊥
Replayed f at high (some items) =
    (bytes_of items ≡ window f at (high - at)) × (is_complete items ≡ true)

close_replay-Replayed :
    (f : ℕ → ℕ) (at high : ℕ) (early : Bool) (o : Option Yielded)
    → early ≡ false
    → Gave ⊥ f at high o
    → Replayed f at high (close_replay early o)
unfolding Gave Replayed bytes_of is_complete
close_replay-Replayed f at high early none e gave = gave
close_replay-Replayed f at high early (some y) e (plain, inr lost, bytes) = absurd lost
close_replay-Replayed f at high early (some y) e (plain, inl whole, bytes) =
    rw (e, whole, bytes_of-append y.items (replay_complete true ∷ []), bytes whole)
      (
        append-nil (window f at (high - at)),
        is_complete-append y.items (replay_complete true ∷ []) plain,
      )

not_early :
    (f : ℕ → ℕ) (at high origin : ℕ) (require : Bool) (spans : List HistorySpan)
    → at < high
    → Chain ⊥ f at high spans
    → (require && no_end origin high spans) ≡ false
unfolding last_end
not_early f at high origin require [] lt chain = absurd (omega arith)
not_early f at high origin require (span ∷ spans) lt chain =
    ground (arith, Chain-last_end ⊥ f at high (span ∷ spans) chain)

pub replay_selected-Replayed :
    (f : ℕ → ℕ) (at high origin : ℕ) (require : Bool) (s : Selection)
    → at < high
    → s.incomplete ≡ false
    → Chain ⊥ f at high s.spans
    → Replayed f at high (replay_selected origin high require (some s))
unfolding replay_selected
replay_selected-Replayed f at high origin require s lt complete chain =
    close_replay-Replayed f at high (known_incomplete origin high require s) (yield_spans s.spans)
      (rw
        (
          complete,
          Chain-has_gap ⊥ f at high s.spans chain,
          not_early f at high origin require s.spans lt chain,
        )
        refl)
      (yield_spans-Gave ⊥ f at high s.spans chain)

IsTail-of_selection :
    (f : ℕ → ℕ) (low high n origin : ℕ) (require : Bool) (o : Option Selection)
    → low < high
    → 0 < n
    → Selected ⊥ f high n low low o
    → (at : ℕ) × IsTail f low high n at × Replayed f at high (replay_selected origin high require o)
unfolding Selected
IsTail-of_selection f low high n origin require none lt pos h = absurd h
IsTail-of_selection f low high n origin require (some s) lt pos (inl lost) = absurd lost.0
IsTail-of_selection f low high n origin require (some s) lt pos (inr suffix) = (
  suffix.at,
  suffix-IsTail ⊥ f low high n s lt suffix,
  replay_selected-Replayed f suffix.at high origin require s
      (suffix_before ⊥ f low high n s lt pos suffix) suffix.complete suffix.chain,
)

-- Where the captured spans stand end to end up to the endpoint and can be read, a replay of the last n
-- lines yields exactly the longest end of the retained bytes that has no more than n lines, in whatever
-- spans and buffers these bytes lie, and says that it is complete.
pub replay-IsTail :
    (f : ℕ → ℕ) (low high n origin : ℕ) (require : Bool) (spans : List HistorySpan)
    → low < high
    → 0 < n
    → Chain ⊥ f low high spans
    → (at : ℕ) × IsTail f low high n at
      × Replayed f at high (replay_history origin spans high (some n) require)
unfolding replay_history
replay-IsTail f low high n origin require [] lt pos chain = absurd (omega arith)
replay-IsTail f low high n origin require (span ∷ spans) lt pos chain =
    let not_zero : (n == 0) ≡ false = ground arith in
    rw not_zero (
      IsTail-of_selection f low high n origin require (select_tail (span ∷ spans) n) lt pos
        (select_tail-Selected ⊥ f low high n (span ∷ spans) (omega arith) pos chain))
