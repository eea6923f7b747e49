-- ===== src/Replay/Selecting.antt =====
-- What `_select_tail` selects (src/comfyui_docker_helper/container/runtime/log_query.py).
use comfyui_docker_helper.Prelude.{
  ℕ, suc, ◌-◌, ◌≤◌, Bool, true, false, List, [], ◌∷◌, ◌++◌, Option, none, All, some, ltb, arith,
  ◌≡◌, ◌≢◌, subst, refl, sym, Bool-cases, inl, inr, ◌⊎◌,
}
use comfyui_docker_helper.Replay.{
  HistorySpan, SpanTail, failed_below, begins, passed, out_of_fuel, span_tail, from_offset,
  Selection, is_gap, after_span, select_back,
}
use comfyui_docker_helper.Replay.Search.{Honest, Seen, Begins, SpanSearched, span_tail-Searched}

-- Spans that stand end to end from `low` to `high`.
abbrev pub Chain : Type 0 → (ℕ → ℕ) → ℕ → ℕ → List HistorySpan → Type 0
Chain Lost f low high [] = low ≡ high
Chain Lost f low high (span ∷ spans) =
    Honest Lost f span × (span.start ≡ low) × Chain Lost f span.end high spans

-- Where the first span starts, from the spans in reverse.
abbrev pub start_of : List HistorySpan → ℕ → ℕ
start_of [] end = end
start_of (span ∷ before) end = start_of before span.start

abbrev pub StartsAbove : ℕ → HistorySpan → Type 0
StartsAbove bottom span = bottom ≤ span.start

-- A selection is the spans from an offset on, where the tail begins or the first span does.
pub record Suffix (Lost : Type 0) (f : ℕ → ℕ) (hi n bottom low : ℕ) (selection : Selection)
    : Type 0 where
  pub at : ℕ
  pub complete : selection.incomplete ≡ false
  pub above : bottom ≤ at
  pub chain : Chain Lost f at hi selection.spans
  pub begins :
      Begins f hi n at ⊎ ((at ≡ low) × ((first : Bool) × (r : ℕ) × Seen f hi n low first r))

unfoldable pub Selected : Type 0 → (ℕ → ℕ) → ℕ → ℕ → ℕ → ℕ → Option Selection → Type 0
Selected Lost f hi n bottom low none = ⊥
Selected Lost f hi n bottom low (some selection) =
    (Lost × (selection.incomplete ≡ true) × All (Honest Lost f) selection.spans)
    ⊎ Suffix Lost f hi n bottom low selection

-- Spans in reverse that stand end to end, but for losses, where the next one starts at `end`.
abbrev pub JoinedBack : Type 0 → ℕ → List HistorySpan → Type 0
JoinedBack Lost end [] = Unit
JoinedBack Lost end (span ∷ before) = (span.end ≢ end → Lost) × JoinedBack Lost span.start before

pub lost-JoinedBack :
    (Lost : Type 0) (end : ℕ) (before : List HistorySpan) → Lost → JoinedBack Lost end before
lost-JoinedBack Lost end [] lost = tt
lost-JoinedBack Lost end (span ∷ before) lost =
    (λ e. lost, lost-JoinedBack Lost span.start before lost)

-- The next start that the search knows, with none only where the last span ends.
abbrev pub Next : Option ℕ → ℕ → List HistorySpan → Type 0
Next none end [] = Unit
Next none end (span ∷ before) = span.end ≡ end
Next (some at) end before = at ≡ end

gap_lost :
    (Lost : Type 0) (next_start : Option ℕ) (end : ℕ) (span : HistorySpan)
    (before : List HistorySpan)
    → Next next_start end (span ∷ before)
    → (span.end ≢ end → Lost)
    → is_gap next_start span.end ≡ true
    → Lost
gap_lost Lost none end span before next lost gap = absurd (cc gap)
gap_lost Lost (some at) end span before next lost gap = lost (λ e. ground arith)

no_gap :
    (next_start : Option ℕ) (end : ℕ) (span : HistorySpan) (before : List HistorySpan)
    → Next next_start end (span ∷ before)
    → is_gap next_start span.end ≡ false
    → span.end ≡ end
no_gap none end span before next e = next
no_gap (some at) end span before next e = ground arith

narrowed :
    (Lost : Type 0) (f : ℕ → ℕ) (span : HistorySpan) (at : ℕ)
    → Honest Lost f span
    → span.start ≤ at
    → at ≤ span.end
    → Honest Lost f (record span { start = at })
narrowed Lost f span at honest low high = record {
  ordered = high;
  right = λ start size a b c. honest.right start size (omega arith) b c;
}

from_offset-Chain :
    (Lost : Type 0) (f : ℕ → ℕ) (hi : ℕ) (span : HistorySpan) (later : List HistorySpan) (at : ℕ)
    → Honest Lost f span
    → span.start ≤ at
    → at ≤ span.end
    → Chain Lost f span.end hi later
    → Chain Lost f at hi (from_offset at span ++ later)
unfolding from_offset
from_offset-Chain Lost f hi span later at honest low high chain =
    elim (Bool-cases (ltb at span.end)) [
      | inl e ↦ rw e (narrowed Lost f span at honest low high, refl, chain)
      | inr e ↦
          let same : span.end ≡ at = ground arith in
          rw e (subst (λ p. Chain Lost f p hi later) same chain)
    ]

pub Chain-Honest :
    (Lost : Type 0) (f : ℕ → ℕ) (low high : ℕ) (spans : List HistorySpan)
    → Chain Lost f low high spans
    → All (Honest Lost f) spans
Chain-Honest Lost f low high [] chain = tt
Chain-Honest Lost f low high (span ∷ spans) (honest, at, chain) =
    (honest, Chain-Honest Lost f span.end high spans chain)

after_span-Selected :
    (Lost : Type 0) (f : ℕ → ℕ) (hi n bottom low : ℕ) (span : HistorySpan)
    (later : List HistorySpan) (t : SpanTail) (next : Bool → ℕ → Option Selection)
    → Honest Lost f span
    → bottom ≤ span.start
    → Chain Lost f span.end hi later
    → SpanSearched Lost f hi n span.start span.end t
    → ((first : Bool) (r : ℕ)
        → Seen f hi n span.start first r
        → Selected Lost f hi n bottom low (next first r))
    → Selected Lost f hi n bottom low (after_span span later t next)
unfolding Selected SpanSearched
after_span-Selected Lost f hi n bottom low span later (failed_below at) next honest le chain
      searched more =
    inl (
      searched.0,
      refl,
      Chain-Honest Lost f at hi (from_offset at span ++ later) (
          from_offset-Chain Lost f hi span later at honest (omega (arith, searched.1)) searched.2
            chain),
    )
after_span-Selected Lost f hi n bottom low span later (begins at) next honest le chain (here, a, b)
      more =
    inr (record {
      at = at;
      complete = refl;
      above = omega arith;
      chain = from_offset-Chain Lost f hi span later at honest (omega arith) b chain;
      begins = inl here;
    })
after_span-Selected Lost f hi n bottom low span later (passed first r) next honest le chain seen
      more =
    more first r seen
after_span-Selected Lost f hi n bottom low span later out_of_fuel next honest le chain seen more =
    absurd seen

pub select_back-Selected :
    (Lost : Type 0) (f : ℕ → ℕ) (hi n bottom : ℕ) (before later : List HistorySpan)
    (next_start : Option ℕ) (end : ℕ) (first_byte : Bool) (r : ℕ)
    → All (Honest Lost f) before
    → All (StartsAbove bottom) before
    → bottom ≤ end
    → Next next_start end before
    → JoinedBack Lost end before
    → Chain Lost f end hi later
    → Seen f hi n end first_byte r
    → Selected Lost f hi n bottom
        (start_of before end)
        (select_back before later next_start first_byte r)
unfolding select_back Selected
select_back-Selected Lost f hi n bottom [] later next_start end first_byte r honest starts le next
      joined chain seen =
    inr (record {
      at = end;
      complete = refl;
      above = le;
      chain = chain;
      begins = inr (refl, (first_byte, r, seen));
    })
select_back-Selected Lost f hi n bottom (span ∷ before) later next_start end first_byte r
      (honest, others) (start, starts) le next (lost, joined) chain seen =
    elim (Bool-cases (is_gap next_start span.end)) [
      | inl gap ↦ rw gap (
          inl (
            gap_lost Lost next_start end span before next lost gap,
            refl,
            Chain-Honest Lost f end hi later chain,
          ))
      | inr e ↦
          let same = no_gap next_start end span before next e in
          let there = subst (λ p. Chain Lost f p hi later) (sym same) chain in
          let known = subst (λ p. Seen f hi n p first_byte r) (sym same) seen in
          rw e (
            after_span-Selected Lost f hi n bottom (start_of before span.start) span later
              (span_tail (suc (span.end - span.start)) span span.end first_byte r)
              (λ first left. select_back before (span ∷ later) (some span.start) first left) honest
              start there
              (span_tail-Searched Lost (suc (span.end - span.start)) f hi n span span.end first_byte
                r honest honest.ordered (omega arith) (omega arith) known)
              (λ first left s.
                select_back-Selected Lost f hi n bottom before (span ∷ later) (some span.start)
                  span.start first left others starts start refl joined (honest, refl, there) s))
    ]
