-- ===== src/Replay/Search.antt =====
-- Where the backward search of `_select_tail` ends
-- (src/comfyui_docker_helper/container/runtime/log_query.py).
use comfyui_docker_helper.Prelude.{
  ℕ, zero, suc, ◌+◌, ◌-◌, ◌≤◌, ◌<◌, max, Bool, true, false, List, Option, none, some, ltb, ltb→lt,
  arith, ◌≡◌, subst, refl, Bool-cases, inl, inr,
}
use comfyui_docker_helper.History.{log_read_bytes}
use comfyui_docker_helper.History.Windows.{window, length-window}
use comfyui_docker_helper.Replay.{
  HistorySpan, line_feed, Scan, found, remaining, SpanTail, failed_below, begins, passed,
  out_of_fuel, after_scan, after_read, span_tail,
}
use comfyui_docker_helper.Replay.Lines.{
  count_lf, count_lf-split, count_lf-one, Scanned, scan-Scanned, budget, count_last-budget,
}

-- A read that succeeds gives the bytes of the stream; one that fails shows what a loss shows.
abbrev pub Right : Type 0 → (ℕ → ℕ) → ℕ → ℕ → Option (List ℕ) → Type 0
Right Lost f start size none = Lost
Right Lost f start size (some bytes) = bytes ≡ window f start size

-- A span whose reader gives nothing but the bytes of the stream. Where nothing is lost, which is `⊥`
-- for the first argument, it gives all that it is asked for.
pub record Honest (Lost : Type 0) (f : ℕ → ℕ) (span : HistorySpan) : Type 0 where
  pub ordered : span.start ≤ span.end
  pub right :
      (start size : ℕ)
      → span.start ≤ start
      → start + size ≤ span.end
      → size ≤ log_read_bytes
      → Right Lost f start size (span.reader start size)

-- The line feeds before the end of the stream that stand before the tail of n lines.
abbrev pub wanted : (ℕ → ℕ) → ℕ → ℕ → ℕ
wanted f hi n = budget f hi true n

-- What the search knows when it has read the stream from `end` on.
pub record Seen (f : ℕ → ℕ) (hi n end : ℕ) (first_byte : Bool) (r : ℕ) : Type 0 where
  pub below : end ≤ hi
  pub more : 0 < r
  pub start : first_byte ≡ true → (end ≡ hi) × (r ≡ n)
  pub count : first_byte ≡ false → r + count_lf f end (hi - end) ≡ wanted f hi n

-- The tail begins behind the line feed that is one too many.
pub record Begins (f : ℕ → ℕ) (hi n at : ℕ) : Type 0 where
  pub positive : 0 < at
  pub below : at ≤ hi
  pub after : f (at - 1) ≡ line_feed
  pub count : suc (count_lf f at (hi - at)) ≡ wanted f hi n

unfoldable pub SpanSearched : Type 0 → (ℕ → ℕ) → ℕ → ℕ → ℕ → ℕ → SpanTail → Type 0
SpanSearched Lost f hi n low end (failed_below at) = Lost × (low < at) × (at ≤ end)
SpanSearched Lost f hi n low end (begins at) = Begins f hi n at × (low < at) × (at ≤ end)
SpanSearched Lost f hi n low end (passed first_byte r) = Seen f hi n low first_byte r
SpanSearched Lost f hi n low end out_of_fuel = ⊥

-- The lines that are wanted of a buffer and what is before it.
budget-count :
    (f : ℕ → ℕ) (hi n end : ℕ) (first_byte : Bool) (r : ℕ)
    → Seen f hi n end first_byte r
    → (budget f end first_byte r + count_lf f end (hi - end) ≡ wanted f hi n)
      × (0 < budget f end first_byte r)
unfolding count_lf
budget-count f hi n end true r seen =
    let (at, same) = seen.start refl in
    let positive : 0 < n = omega (arith, seen.more) in
    let nothing : hi - hi ≡ 0 = omega arith in
    rw (at, same, nothing) (omega arith, ground (arith, positive))
budget-count f hi n end false r seen = (seen.count refl, seen.more)

widen :
    (Lost : Type 0) (f : ℕ → ℕ) (hi n low start end : ℕ) (t : SpanTail)
    → start ≤ end
    → SpanSearched Lost f hi n low start t
    → SpanSearched Lost f hi n low end t
unfolding SpanSearched
widen Lost f hi n low start end (failed_below at) le (lost, a, b) = (lost, a, omega arith)
widen Lost f hi n low start end (begins at) le (h, a, b) = (h, a, omega arith)
widen Lost f hi n low start end (passed first_byte r) le h = h
widen Lost f hi n low start end out_of_fuel le h = h

-- The line feed that is one too many is in the buffer from `start` to `end`.
Begins-here :
    (f : ℕ → ℕ) (hi n start end at b : ℕ)
    → start < end
    → end ≤ hi
    → b + count_lf f end (hi - end) ≡ wanted f hi n
    → Scanned f start (end - start) b (found at)
    → Begins f hi n (start + at + 1)
Begins-here f hi n start end at b lt below all (inside, here, count) =
    let before : start + at + 1 - 1 ≡ start + at = omega arith in
    record {
      positive = omega arith;
      below = omega arith;
      after = rw before here;
      count = omega (
        arith,
        count_lf-one f (start + at) here,
        count_lf-split f (start + at) 1 (start + at + 1) (hi - (start + at + 1)) (hi - (start + at))
            refl (omega arith),
        count_lf-split f (start + at) (end - start - at) end (hi - end) (hi - (start + at))
            (omega arith) (omega arith),
      );
    }

Seen-further :
    (f : ℕ → ℕ) (hi n start end left b : ℕ)
    → start < end
    → end ≤ hi
    → b + count_lf f end (hi - end) ≡ wanted f hi n
    → Scanned f start (end - start) b (remaining left)
    → Seen f hi n start false left
Seen-further f hi n start end left b lt below all (count, pos) = record {
  below = omega arith;
  more = pos;
  start = λ e. absurd (cc (e));
  count = λ e. omega (
    arith,
    count_lf-split f start (end - start) end (hi - end) (hi - start) (omega arith) (omega arith),
  );
}

after_scan-Searched :
    (Lost : Type 0) (f : ℕ → ℕ) (hi n low start end b : ℕ) (s : Scan) (next : ℕ → SpanTail)
    → low ≤ start
    → start < end
    → end ≤ hi
    → b + count_lf f end (hi - end) ≡ wanted f hi n
    → Scanned f start (end - start) b s
    → ((left : ℕ) → Seen f hi n start false left → SpanSearched Lost f hi n low start (next left))
    → SpanSearched Lost f hi n low end (after_scan start s next)
unfolding SpanSearched
after_scan-Searched Lost f hi n low start end b (found at) next le lt below all s more =
    (Begins-here f hi n start end at b lt below all s, omega (arith, s.0), omega (arith, s.0))
after_scan-Searched Lost f hi n low start end b (remaining left) next le lt below all s more =
    widen Lost f hi n low start end (next left) (omega arith)
      (more left (Seen-further f hi n start end left b lt below all s))

after_read-Searched :
    (Lost : Type 0) (f : ℕ → ℕ) (hi n low start end : ℕ) (first_byte : Bool) (r : ℕ)
    (o : Option (List ℕ)) (next : ℕ → SpanTail)
    → low ≤ start
    → start < end
    → Seen f hi n end first_byte r
    → Right Lost f start (end - start) o
    → ((left : ℕ) → Seen f hi n start false left → SpanSearched Lost f hi n low start (next left))
    → SpanSearched Lost f hi n low end (after_read start end first_byte r o next)
unfolding SpanSearched
after_read-Searched Lost f hi n low start end first_byte r none next le lt seen right more =
    (right, omega arith, omega arith)
after_read-Searched Lost f hi n low start end first_byte r (some bytes) next le lt seen right more =
    let (all, pos) = budget-count f hi n end first_byte r seen in
    rw right (
      rw
        (
          count_last-budget f start (end - start) end first_byte r (omega arith) (omega arith),
          length-window f start (end - start),
        )
        (after_scan-Searched Lost f hi n low start end (budget f end first_byte r) _ next le lt
          seen.below all
          (scan-Scanned f start (end - start) (end - start) (budget f end first_byte r)
            (omega arith) pos)
          more))

passed-Searched :
    (Lost : Type 0) (f : ℕ → ℕ) (hi n low end : ℕ) (first_byte : Bool) (r : ℕ)
    → end ≡ low
    → Seen f hi n end first_byte r
    → SpanSearched Lost f hi n low end (passed first_byte r)
unfolding SpanSearched
passed-Searched Lost f hi n low end first_byte r e seen =
    subst (λ at. Seen f hi n at first_byte r) e seen

pub span_tail-Searched :
    (Lost : Type 0) (fuel : ℕ) (f : ℕ → ℕ) (hi n : ℕ) (span : HistorySpan) (end : ℕ)
    (first_byte : Bool) (r : ℕ)
    → Honest Lost f span
    → span.start ≤ end
    → end ≤ span.end
    → end - span.start < fuel
    → Seen f hi n end first_byte r
    → SpanSearched Lost f hi n span.start end (span_tail fuel span end first_byte r)
unfolding span_tail
span_tail-Searched Lost zero f hi n span end first_byte r honest low high enough seen =
    absurd (omega arith)
span_tail-Searched Lost (suc fuel) f hi n span end first_byte r honest low high enough seen =
    let start = max span.start (end - log_read_bytes) in
    elim (Bool-cases (ltb span.start end)) [
      | inl e ↦
          let lt = ltb→lt span.start end e in
          rw e (
            after_read-Searched Lost f hi n span.start start end first_byte r
              (span.reader start (end - start)) (λ left. span_tail fuel span start false left)
              (omega arith) (omega arith) seen
              (honest.right start (end - start) (omega arith) (omega arith) (omega arith))
              (λ left s.
                span_tail-Searched Lost fuel f hi n span start false left honest (omega arith)
                  (omega arith) (omega arith) s))
      | inr e ↦ rw e (passed-Searched Lost f hi n span.start end first_byte r (ground arith) seen)
    ]
