-- ===== src/Replay/Reversing.antt =====
-- The spans in the order in which `_select_tail` visits them, from the last one back
-- (src/comfyui_docker_helper/container/runtime/log_query.py).
use mathlib.Core.List.{reverse_aux}
use comfyui_docker_helper.Prelude.{
  ℕ, ◌≤◌, false, List, [], ◌∷◌, none, All, arith, ◌≡◌, subst, refl, sym, ap, ◌∙◌,
}
use comfyui_docker_helper.Replay.{HistorySpan, has_gap, last_end}
use comfyui_docker_helper.Replay.Search.{Honest}
use comfyui_docker_helper.Replay.Selecting.{Chain, start_of, JoinedBack, Next, StartsAbove}

pub reverse-All :
    (P : HistorySpan → Type 0) (spans before : List HistorySpan)
    → All P spans
    → All P before
    → All P (reverse_aux spans before)
reverse-All P [] before h k = k
reverse-All P (span ∷ spans) before (h, hs) k = reverse-All P spans (span ∷ before) hs (h, k)

pub Chain-StartsAbove :
    (Lost : Type 0) (f : ℕ → ℕ) (bottom low high : ℕ) (spans : List HistorySpan)
    → bottom ≤ low
    → Chain Lost f low high spans
    → All (StartsAbove bottom) spans
Chain-StartsAbove Lost f bottom low high [] le chain = tt
Chain-StartsAbove Lost f bottom low high (span ∷ spans) le (honest, at, chain) = (
  omega arith,
  Chain-StartsAbove Lost f bottom span.end high spans (omega (arith, honest.ordered)) chain,
)

pub reverse-Next :
    (end : ℕ) (spans before : List HistorySpan)
    → Next none end before
    → Next none (last_end spans end) (reverse_aux spans before)
unfolding last_end
reverse-Next end [] before next = next
reverse-Next end (span ∷ spans) before next = reverse-Next span.end spans (span ∷ before) refl

pub reverse-JoinedBack :
    (Lost : Type 0) (f : ℕ → ℕ) (low high : ℕ) (spans before : List HistorySpan)
    → Chain Lost f low high spans
    → JoinedBack Lost low before
    → JoinedBack Lost high (reverse_aux spans before)
reverse-JoinedBack Lost f low high [] before chain back =
    subst (λ p. JoinedBack Lost p before) chain back
reverse-JoinedBack Lost f low high (span ∷ spans) before (honest, at, chain) back =
    reverse-JoinedBack Lost f span.end high spans (span ∷ before) chain
      (λ differ. absurd (differ refl), subst (λ p. JoinedBack Lost p before) (sym at) back)

pub reverse-start_of :
    (Lost : Type 0) (f : ℕ → ℕ) (low high : ℕ) (spans before : List HistorySpan)
    → Chain Lost f low high spans
    → start_of (reverse_aux spans before) high ≡ start_of before low
reverse-start_of Lost f low high [] before chain = ap (start_of before) (sym chain)
reverse-start_of Lost f low high (span ∷ spans) before (honest, at, chain) =
    reverse-start_of Lost f span.end high spans (span ∷ before) chain ∙ ap (start_of before) at

pub Chain-last_end :
    (Lost : Type 0) (f : ℕ → ℕ) (low high : ℕ) (spans : List HistorySpan)
    → Chain Lost f low high spans
    → last_end spans low ≡ high
unfolding last_end
Chain-last_end Lost f low high [] chain = chain
Chain-last_end Lost f low high (span ∷ spans) (honest, at, chain) =
    Chain-last_end Lost f span.end high spans chain

pub Chain-has_gap :
    (Lost : Type 0) (f : ℕ → ℕ) (low high : ℕ) (spans : List HistorySpan)
    → Chain Lost f low high spans
    → has_gap spans ≡ false
unfolding has_gap
Chain-has_gap Lost f low high [] chain = refl
Chain-has_gap Lost f low high (span ∷ []) chain = refl
Chain-has_gap Lost f low high (span ∷ next ∷ spans) (honest, at, (honest', at', chain)) =
    ground (arith, Chain-has_gap Lost f span.end high (next ∷ spans) (honest', at', chain))

-- Spans without a gap between them stand end to end.
pub has_gap-Chain :
    (Lost : Type 0) (f : ℕ → ℕ) (span : HistorySpan) (spans : List HistorySpan)
    → All (Honest Lost f) (span ∷ spans)
    → has_gap (span ∷ spans) ≡ false
    → Chain Lost f span.start (last_end spans span.end) (span ∷ spans)
unfolding has_gap last_end
has_gap-Chain Lost f span [] (honest, none_left) e = (honest, refl, refl)
has_gap-Chain Lost f span (next ∷ spans) (honest, others) e =
    let (h, at, chain) = has_gap-Chain Lost f next spans others (ground arith) in
    (honest, refl, (h, ground arith, chain))
