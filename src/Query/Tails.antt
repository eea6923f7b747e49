-- ===== src/Query/Tails.antt =====
-- The suffix that `memory_tail` proves (src/comfyui_docker_helper/container/runtime/log_query.py).
use comfyui_docker_helper.Prelude.{
  ℕ, ◌<◌, Bool, true, false, List, [], ◌∷◌, Option, none, some, ltb, ◌==◌, arith, refl, Bool-cases,
  inl, inr,
}
use comfyui_docker_helper.Replay.{HistorySpan, Selection, select_tail, proven_suffix, memory_tail}
use comfyui_docker_helper.Replay.Search.{Honest}
use comfyui_docker_helper.Replay.Selecting.{Chain, Selected}
use comfyui_docker_helper.Replay.Tails.{IsTail, suffix-IsTail, suffix_before}
use comfyui_docker_helper.Replay.Guarantees.{select_tail-Selected}

-- A suffix that memory proves is the tail, whatever else there was.
pub record Proven (Lost : Type 0) (f : ℕ → ℕ) (low high n : ℕ) (spans : List HistorySpan)
    : Type 0 where
  pub at : ℕ
  pub before_end : at < high
  pub tail : IsTail f low high n at
  pub chain : Chain Lost f at high spans

unfoldable pub ProvenTail :
    Type 0 → (ℕ → ℕ) → ℕ → ℕ → ℕ → Option (Option (List HistorySpan)) → Type 0
ProvenTail Lost f low high n none = ⊥
ProvenTail Lost f low high n (some none) = Unit
ProvenTail Lost f low high n (some (some spans)) = Proven Lost f low high n spans

proven_suffix-Proven :
    (Lost : Type 0) (f : ℕ → ℕ) (low high n : ℕ) (spans : List HistorySpan) (incomplete : Bool)
    → low < high
    → 0 < n
    → Selected Lost f high n low low (some (record { spans = spans; incomplete = incomplete }))
    → ProvenTail Lost f low high n
        (some (proven_suffix low (record { spans = spans; incomplete = incomplete })))
unfolding Selected ProvenTail proven_suffix
proven_suffix-Proven Lost f low high n [] incomplete lt pos h = tt
proven_suffix-Proven Lost f low high n (a ∷ spans) true lt pos h = tt
proven_suffix-Proven Lost f low high n (a ∷ spans) false lt pos (inl (lost, e, honest)) =
    absurd (cc e)
proven_suffix-Proven Lost f low high n (a ∷ spans) false lt pos (inr suffix) =
    elim (Bool-cases (ltb low a.start)) [
      | inr e ↦ rw e tt
      | inl e ↦ rw e (record {
        at = suffix.at;
        before_end = suffix_before Lost f low high n _ lt pos suffix;
        tail = suffix-IsTail Lost f low high n _ lt suffix;
        chain = suffix.chain;
      })
    ]

selection-ProvenTail :
    (Lost : Type 0) (f : ℕ → ℕ) (low high n : ℕ) (o : Option Selection)
    → Selected Lost f high n low low o
    → low < high
    → 0 < n
    → ProvenTail Lost f low high n
        (elim o [ none ↦ none | some selection ↦ some (proven_suffix low selection) ])
unfolding Selected ProvenTail
selection-ProvenTail Lost f low high n none h lt pos = h
selection-ProvenTail Lost f low high n (some selection) h lt pos =
    proven_suffix-Proven Lost f low high n selection.spans selection.incomplete lt pos h

pub memory_tail-ProvenTail :
    (Lost : Type 0) (f : ℕ → ℕ) (span : HistorySpan) (n : ℕ)
    → 0 < n
    → Honest Lost f span
    → ProvenTail Lost f span.start span.end n (memory_tail span n)
unfolding memory_tail ProvenTail
memory_tail-ProvenTail Lost f span n pos honest = elim (Bool-cases (span.start == span.end)) [
  | inl e ↦ rw e tt
  | inr e ↦ rw e (
      selection-ProvenTail Lost f span.start span.end n (select_tail (span ∷ []) n)
        (select_tail-Selected Lost f span.start span.end n (span ∷ []) honest.ordered pos
          (honest, refl, refl))
        (let le = honest.ordered in ground arith) pos)
]
