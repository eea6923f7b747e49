-- ===== src/Replay/Trust.antt =====
-- What a replay that says that it is complete has yielded
-- (src/comfyui_docker_helper/container/runtime/log_query.py).
use comfyui_docker_helper.Prelude.{
  ℕ, zero, suc, ◌-◌, ◌≤◌, ◌<◌, Bool, true, false, List, [], ◌∷◌, Option, none, All, reverse,
  append-nil, some, ◌==◌, arith, ◌≡◌, refl, ap, ◌∙◌, Bool-cases, inl, inr,
}
use comfyui_docker_helper.History.Windows.{window}
use comfyui_docker_helper.Replay.{
  HistorySpan, has_gap, last_end, Selection, select_tail, replay_history, replay_selected,
  LogReplayItem, replay_complete, log_diagnostic, Yielded, yield_spans, no_end, close_replay,
  known_incomplete,
}
use comfyui_docker_helper.Replay.Search.{Honest}
use comfyui_docker_helper.Replay.Selecting.{
  Chain, start_of, lost-JoinedBack, Selected, select_back-Selected, StartsAbove,
}
use comfyui_docker_helper.Replay.Yielding.{
  bytes_of, is_complete, bytes_of-append, is_complete-append, Gave, yield_spans-Gave, Yields,
  yield_spans-Yields, Chain-le,
}
use comfyui_docker_helper.Replay.Guarantees.{Seen-nothing}
use comfyui_docker_helper.Replay.Reversing.{
  reverse-All, reverse-Next, Chain-last_end, has_gap-Chain,
}

-- The search over spans that stand end to end.
-- If a replay says that it is complete, it has yielded an end of the stream up to the endpoint.
unfoldable pub Trusted : (ℕ → ℕ) → ℕ → Option (List LogReplayItem) → Type 0
Trusted f endpoint none = ⊥
Trusted f endpoint (some items) =
    is_complete items ≡ true
    → (at : ℕ) × (at ≤ endpoint) × (bytes_of items ≡ window f at (endpoint - at))

pub nothing-Trusted :
    (f : ℕ → ℕ) (endpoint : ℕ) (items : List LogReplayItem)
    → bytes_of items ≡ []
    → Trusted f endpoint (some items)
unfolding Trusted
nothing-Trusted f endpoint items e complete =
    let nothing : endpoint - endpoint ≡ 0 = omega arith in
    (endpoint, omega arith, rw (e, nothing) refl)

incomplete-Trusted :
    (f : ℕ → ℕ) (endpoint : ℕ) (early : Bool) (o : Option Yielded)
    → early ≡ true
    → Yields o
    → Trusted f endpoint (close_replay early o)
unfolding Trusted Yields is_complete
incomplete-Trusted f endpoint early none e ended = ended
incomplete-Trusted f endpoint early (some y) e ended = rw e (λ complete. absurd (
    cc (
      complete,
      is_complete-append y.items (log_diagnostic true ∷ replay_complete false ∷ []) ended,
    )))

-- Where nothing else is missing, the end of what is yielded is the endpoint.
Reaches : (ℕ → ℕ) → ℕ → ℕ → ℕ → Type 0
Reaches f endpoint low high =
    (at : ℕ) × (at ≤ endpoint) × (window f low (high - low) ≡ window f at (endpoint - at))

close_replay-Trusted :
    (f : ℕ → ℕ) (endpoint low high : ℕ) (early : Bool) (o : Option Yielded)
    → Gave Unit f low high o
    → (early ≡ false → Reaches f endpoint low high)
    → Trusted f endpoint (close_replay early o)
unfolding Trusted Gave Reaches is_complete bytes_of
close_replay-Trusted f endpoint low high early none gave reaches = gave
close_replay-Trusted f endpoint low high true (some y) (plain, ended, bytes) reaches = λ complete.
    absurd (
      cc (
        complete,
        is_complete-append y.items (log_diagnostic true ∷ replay_complete false ∷ []) plain,
      ))
close_replay-Trusted f endpoint low high false (some y) (plain, ended, bytes) reaches =
    elim (Bool-cases y.whole) [
      | inr e ↦ rw e (λ complete. absurd (
          cc (
            complete,
            is_complete-append y.items (log_diagnostic true ∷ replay_complete false ∷ []) plain,
          )))
      | inl e ↦ rw e (λ complete.
          let (at, le, run) = reaches refl in
          (
            at,
            le,
            bytes_of-append y.items (replay_complete true ∷ [])
                ∙ append-nil (bytes_of y.items)
                ∙ bytes e
                ∙ run,
          ))
    ]

Chain-Reaches :
    (f : ℕ → ℕ) (endpoint low high origin : ℕ) (spans : List HistorySpan)
    → Chain Unit f low high spans
    → no_end origin endpoint spans ≡ false
    → Reaches f endpoint low high
unfolding Reaches last_end
Chain-Reaches f endpoint low high origin [] chain e =
    let nothing : endpoint - endpoint ≡ 0 = omega arith in
    let nothing' : high - low ≡ 0 = omega arith in
    (endpoint, omega arith, rw (nothing, nothing') refl)
Chain-Reaches f endpoint low high origin (span ∷ spans) chain e =
    let same : high ≡ endpoint =
      ground (arith, Chain-last_end Unit f low high (span ∷ spans) chain) in
    (
      low,
      omega (arith, Chain-le Unit f low high (span ∷ spans) chain),
      ap (λ k. window f low (k - low)) same,
    )

selection-Trusted :
    (f : ℕ → ℕ) (endpoint high n origin : ℕ) (o : Option Selection)
    → (low : ℕ) → Selected Unit f high n 0 low o
    → Trusted f endpoint (replay_selected origin endpoint true o)
unfolding Selected replay_selected Trusted
selection-Trusted f endpoint high n origin none low h = absurd h
selection-Trusted f endpoint high n origin (some s) low (inl (lost, incomplete, honest)) =
    incomplete-Trusted f endpoint (known_incomplete origin endpoint true s) (yield_spans s.spans)
      (rw incomplete refl) (yield_spans-Yields Unit f s.spans honest)
selection-Trusted f endpoint high n origin (some s) low (inr suffix) =
    close_replay-Trusted f endpoint suffix.at high (known_incomplete origin endpoint true s)
      (yield_spans s.spans) (yield_spans-Gave Unit f suffix.at high s.spans suffix.chain)
      (λ e. Chain-Reaches f endpoint suffix.at high origin s.spans suffix.chain (ground arith))

no_bytes : bytes_of (replay_complete true ∷ []) ≡ []
unfolding bytes_of
no_bytes = refl

select_tail-Trusted :
    (f : ℕ → ℕ) (endpoint n origin : ℕ) (spans : List HistorySpan)
    → 0 < n
    → All (Honest Unit f) spans
    → Trusted f endpoint (replay_selected origin endpoint true (select_tail spans n))
unfolding select_tail
select_tail-Trusted f endpoint n origin spans pos honest =
    selection-Trusted f endpoint (last_end spans 0) n origin _
      (start_of (reverse spans) (last_end spans 0))
      (select_back-Selected Unit f (last_end spans 0) n 0 (reverse spans) [] none (last_end spans 0)
        true n (reverse-All (Honest Unit f) spans [] honest tt)
        (reverse-All (StartsAbove 0) spans [] (above_zero spans) tt) (omega arith)
        (reverse-Next 0 spans [] tt) (lost-JoinedBack Unit (last_end spans 0) (reverse spans) tt)
        refl (Seen-nothing f (last_end spans 0) n pos))
  where
    above_zero : (xs : List HistorySpan) → All (StartsAbove 0) xs
    above_zero [] = tt
    above_zero (x ∷ xs) = (omega arith, above_zero xs)

All-Trusted :
    (f : ℕ → ℕ) (endpoint origin : ℕ) (spans : List HistorySpan)
    → All (Honest Unit f) spans
    → Trusted f endpoint
        (replay_selected origin endpoint true (some (record { spans = spans; incomplete = false })))
unfolding replay_selected
All-Trusted f endpoint origin [] honest =
    close_replay-Trusted f endpoint 0 0
      (known_incomplete origin endpoint true (record { spans = []; incomplete = false }))
      (yield_spans []) (yield_spans-Gave Unit f 0 0 [] refl)
      (λ e. Chain-Reaches f endpoint 0 0 origin [] refl (ground arith))
All-Trusted f endpoint origin (span ∷ spans) honest = elim (Bool-cases (has_gap (span ∷ spans))) [
  | inl gap ↦
      incomplete-Trusted f endpoint _ (yield_spans (span ∷ spans)) (rw gap refl)
        (yield_spans-Yields Unit f (span ∷ spans) honest)
  | inr e ↦
      let chain = has_gap-Chain Unit f span spans honest e in
      close_replay-Trusted f endpoint span.start (last_end spans span.end)
        (known_incomplete origin endpoint true
          (record { spans = span ∷ spans; incomplete = false }))
        (yield_spans (span ∷ spans))
        (yield_spans-Gave Unit f span.start (last_end spans span.end) (span ∷ spans) chain)
        (λ h.
          Chain-Reaches f endpoint span.start (last_end spans span.end) origin (span ∷ spans) chain
            (ground arith))
]

-- A replay that must reach the endpoint always ends, whatever spans it is given and whichever of their
-- ranges cannot be read; and if it says that it is complete, the bytes that it has yielded are an
-- unbroken end of the stream up to the endpoint, if the readers give no other bytes than the stream's.
pub replay_complete_lem :
    (f : ℕ → ℕ) (endpoint origin : ℕ) (tail : Option ℕ) (spans : List HistorySpan)
    → All (Honest Unit f) spans
    → Trusted f endpoint (replay_history origin spans endpoint tail true)
unfolding replay_history
replay_complete_lem f endpoint origin none spans honest = All-Trusted f endpoint origin spans honest
replay_complete_lem f endpoint origin (some zero) spans honest = zero_tail
  where
    zero_tail : Trusted f endpoint (some (replay_complete true ∷ []))
    zero_tail = nothing-Trusted f endpoint (replay_complete true ∷ []) no_bytes
replay_complete_lem f endpoint origin (some (suc n)) [] honest =
    let positive : (suc n == 0) ≡ false = ground arith in
    rw positive (All-Trusted f endpoint origin [] honest)
replay_complete_lem f endpoint origin (some (suc n)) (span ∷ spans) honest =
    let positive : (suc n == 0) ≡ false = ground arith in
    rw positive (select_tail-Trusted f endpoint (suc n) origin (span ∷ spans) (omega arith) honest)
