-- ===== src/Replay/Yielding.antt =====
-- The bytes that `replay_history` yields (src/comfyui_docker_helper/container/runtime/log_query.py).
use comfyui_docker_helper.Prelude.{
  ℕ, zero, suc, ◌+◌, ◌-◌, ◌≤◌, ◌<◌, min, Bool, true, false, List, [], ◌∷◌, ◌++◌, length, Option,
  none, All, some, ltb, ltb→lt, ◌&&◌, arith, ◌≡◌, subst, refl, sym, ap, ◌∙◌, Bool-cases, inl, inr,
  ◌⊎◌, append_assoc,
}
use comfyui_docker_helper.History.{log_read_bytes}
use comfyui_docker_helper.History.Windows.{window, window-append, length-window}
use comfyui_docker_helper.Replay.{
  HistorySpan, LogReplayItem, log_bytes, log_diagnostic, replay_complete, Yielded, yield_before,
  yield_span, yield_both, yield_spans,
}
use comfyui_docker_helper.Replay.Search.{Right, Honest}
use comfyui_docker_helper.Replay.Selecting.{Chain}

-- The bytes among the items, joined, and what the item at the end says.
unfoldable pub bytes_of : List LogReplayItem → List ℕ
bytes_of [] = []
bytes_of (log_bytes bytes ∷ items) = bytes ++ bytes_of items
bytes_of (log_diagnostic incomplete ∷ items) = bytes_of items
bytes_of (replay_complete complete ∷ items) = bytes_of items

unfoldable pub is_complete : List LogReplayItem → Bool
is_complete [] = false
is_complete (log_bytes bytes ∷ items) = is_complete items
is_complete (log_diagnostic incomplete ∷ items) = is_complete items
is_complete (replay_complete complete ∷ items) = complete

-- Nothing but bytes.
unfoldable pub Plain : List LogReplayItem → Type 0
Plain [] = Unit
Plain (log_bytes bytes ∷ items) = Plain items
Plain (log_diagnostic incomplete ∷ items) = ⊥
Plain (replay_complete complete ∷ items) = ⊥

pub bytes_of-append :
    (xs ys : List LogReplayItem) → bytes_of (xs ++ ys) ≡ bytes_of xs ++ bytes_of ys
unfolding bytes_of
bytes_of-append [] ys = refl
bytes_of-append (log_bytes bytes ∷ xs) ys =
    ap (λ r. bytes ++ r) (bytes_of-append xs ys)
    ∙ sym (append_assoc bytes (bytes_of xs) (bytes_of ys))
bytes_of-append (log_diagnostic incomplete ∷ xs) ys = bytes_of-append xs ys
bytes_of-append (replay_complete complete ∷ xs) ys = bytes_of-append xs ys

pub is_complete-append :
    (xs ys : List LogReplayItem) → Plain xs → is_complete (xs ++ ys) ≡ is_complete ys
unfolding is_complete Plain
is_complete-append [] ys plain = refl
is_complete-append (log_bytes bytes ∷ xs) ys plain = is_complete-append xs ys plain
is_complete-append (log_diagnostic incomplete ∷ xs) ys plain = absurd plain
is_complete-append (replay_complete complete ∷ xs) ys plain = absurd plain

Plain-append : (xs ys : List LogReplayItem) → Plain xs → Plain ys → Plain (xs ++ ys)
unfolding Plain
Plain-append [] ys p q = q
Plain-append (log_bytes bytes ∷ xs) ys p q = Plain-append xs ys p q
Plain-append (log_diagnostic incomplete ∷ xs) ys p q = absurd p
Plain-append (replay_complete complete ∷ xs) ys p q = absurd p

-- What is yielded ends, is bytes, and if it is whole, the bytes from `low` to `high`.
unfoldable pub Gave : Type 0 → (ℕ → ℕ) → ℕ → ℕ → Option Yielded → Type 0
Gave Lost f low high none = ⊥
Gave Lost f low high (some y) =
    Plain y.items
    × ((y.whole ≡ true) ⊎ Lost)
    × (y.whole ≡ true → bytes_of y.items ≡ window f low (high - low))

before_rest :
    (Lost : Type 0) (f : ℕ → ℕ) (low size high : ℕ) (bytes : List ℕ) (o : Option Yielded)
    → low + size ≤ high
    → bytes ≡ window f low size
    → Gave Lost f (low + size) high o
    → Gave Lost f low high (elim o [
      | none ↦ none
      | some y ↦ some (record { items = log_bytes bytes ∷ y.items; whole = y.whole })
    ])
unfolding Gave bytes_of Plain
before_rest Lost f low size high bytes none le e h = absurd h
before_rest Lost f low size high bytes (some y) le e (plain, ended, h) = (
  plain,
  ended,
  λ w.
      rw (h w, e)
        (window-append f low size (low + size) (high - (low + size)) (high - low) refl
          (omega arith)),
)

yield_before-Gave :
    (Lost : Type 0) (f : ℕ → ℕ) (low size high : ℕ) (o : Option (List ℕ))
    (next : List ℕ → Option Yielded)
    → low + size ≤ high
    → Right Lost f low size o
    → ((bytes : List ℕ) → length bytes ≡ size → Gave Lost f (low + size) high (next bytes))
    → Gave Lost f low high (yield_before o next)
unfolding Gave bytes_of Plain
yield_before-Gave Lost f low size high none next le right more = (tt, inr right, λ w. absurd (cc w))
yield_before-Gave Lost f low size high (some bytes) next le right more =
    before_rest Lost f low size high bytes (next bytes) le right
      (more bytes (ap length right ∙ length-window f low size))

nothing-Gave :
    (Lost : Type 0) (f : ℕ → ℕ) (low high : ℕ)
    → high ≤ low
    → Gave Lost f low high (some (record { items = []; whole = true }))
unfolding Gave Plain bytes_of
nothing-Gave Lost f low high le =
    let nothing : high - low ≡ 0 = omega arith in rw nothing (tt, inl refl, λ w. refl)

pub yield_span-Gave :
    (Lost : Type 0) (fuel : ℕ) (f : ℕ → ℕ) (span : HistorySpan) (position : ℕ)
    → Honest Lost f span
    → span.start ≤ position
    → position ≤ span.end
    → span.end - position < fuel
    → Gave Lost f position span.end (yield_span fuel span position)
unfolding yield_span
yield_span-Gave Lost zero f span position honest low high enough = absurd (omega arith)
yield_span-Gave Lost (suc fuel) f span position honest low high enough =
    let size = min log_read_bytes (span.end - position) in
    elim (Bool-cases (ltb position span.end)) [
      | inl e ↦
          let lt = ltb→lt position span.end e in
          rw e (
            yield_before-Gave Lost f position size span.end (span.reader position size)
              (λ bytes. yield_span fuel span (position + length bytes)) (omega arith)
              (honest.right position size (omega arith) (omega arith) (omega arith))
              (λ bytes count. rw count (
                yield_span-Gave Lost fuel f span (position + size) honest (omega arith)
                  (omega arith) (omega arith))))
      | inr e ↦ rw e (nothing-Gave Lost f position span.end (ground arith))
    ]

yield_both-Gave :
    (Lost : Type 0) (f : ℕ → ℕ) (low middle high : ℕ) (o p : Option Yielded)
    → low ≤ middle
    → middle ≤ high
    → Gave Lost f low middle o
    → Gave Lost f middle high p
    → Gave Lost f low high (yield_both o p)
unfolding Gave
yield_both-Gave Lost f low middle high none p le le' h k = absurd h
yield_both-Gave Lost f low middle high (some y) none le le' h k = absurd k
yield_both-Gave Lost f low middle high (some y) (some z) le le' (plain, ended, h)
      (plain', ended', k) =
    (
      Plain-append y.items z.items plain plain',
      ended_both ended ended',
      λ w.
          let (left, right) = both y.whole z.whole w in
          rw (bytes_of-append y.items z.items) (
            rw (h left, k right)
              (window-append f low (middle - low) middle (high - middle) (high - low) (omega arith)
                (omega arith))),
    )
  where
    both : (a b : Bool) → (a && b) ≡ true → (a ≡ true) × (b ≡ true)
    both a b e = ground arith

    ended_both :
        ((y.whole ≡ true) ⊎ Lost) → ((z.whole ≡ true) ⊎ Lost) → ((y.whole && z.whole) ≡ true) ⊎ Lost
    ended_both (inl a) (inl b) = inl (rw (a, b) refl)
    ended_both (inl a) (inr b) = inr b
    ended_both (inr a) b = inr a

pub Chain-le :
    (Lost : Type 0) (f : ℕ → ℕ) (low high : ℕ) (spans : List HistorySpan)
    → Chain Lost f low high spans
    → low ≤ high
Chain-le Lost f low high [] chain = omega arith
Chain-le Lost f low high (span ∷ spans) (honest, at, chain) =
    omega (arith, honest.ordered, Chain-le Lost f span.end high spans chain)

-- Spans that stand end to end yield the run of bytes that they cover, if they yield all of it.
pub yield_spans-Gave :
    (Lost : Type 0) (f : ℕ → ℕ) (low high : ℕ) (spans : List HistorySpan)
    → Chain Lost f low high spans
    → Gave Lost f low high (yield_spans spans)
unfolding yield_spans
yield_spans-Gave Lost f low high [] chain = nothing-Gave Lost f low high (omega arith)
yield_spans-Gave Lost f low high (span ∷ spans) (honest, at, chain) =
    let here =
      yield_span-Gave Lost (suc (span.end - span.start)) f span span.start honest (omega arith)
        honest.ordered (omega arith) in
    yield_both-Gave Lost f low span.end high
      (yield_span (suc (span.end - span.start)) span span.start) (yield_spans spans)
      (omega (arith, honest.ordered)) (Chain-le Lost f span.end high spans chain)
      (subst
        (λ p. Gave Lost f p span.end (yield_span (suc (span.end - span.start)) span span.start)) at
        here)
      (yield_spans-Gave Lost f span.end high spans chain)

-- What is yielded ends, and is bytes.
unfoldable pub Yields : Option Yielded → Type 0
Yields none = ⊥
Yields (some y) = Plain y.items

Gave-Yields :
    (Lost : Type 0) (f : ℕ → ℕ) (low high : ℕ) (o : Option Yielded)
    → Gave Lost f low high o
    → Yields o
unfolding Gave Yields
Gave-Yields Lost f low high none gave = gave
Gave-Yields Lost f low high (some y) gave = gave.0

yield_both-Yields : (o p : Option Yielded) → Yields o → Yields p → Yields (yield_both o p)
unfolding Yields
yield_both-Yields none p h k = h
yield_both-Yields (some y) none h k = k
yield_both-Yields (some y) (some z) h k = Plain-append y.items z.items h k

pub yield_spans-Yields :
    (Lost : Type 0) (f : ℕ → ℕ) (spans : List HistorySpan)
    → All (Honest Lost f) spans
    → Yields (yield_spans spans)
unfolding yield_spans
yield_spans-Yields Lost f [] honest =
    Gave-Yields Lost f 0 0 _ (nothing-Gave Lost f 0 0 (omega arith))
yield_spans-Yields Lost f (span ∷ spans) (honest, others) =
    yield_both-Yields (yield_span (suc (span.end - span.start)) span span.start) (yield_spans spans)
      (Gave-Yields Lost f span.start span.end _ (
        yield_span-Gave Lost (suc (span.end - span.start)) f span span.start honest (omega arith)
          honest.ordered (omega arith)))
      (yield_spans-Yields Lost f spans others)
