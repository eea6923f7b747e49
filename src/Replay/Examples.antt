-- ===== src/Replay/Examples.antt =====
-- The replay's theorems at concrete spans (src/comfyui_docker_helper/container/runtime/log_query.py).
use comfyui_docker_helper.Prelude.{
  ℕ, ◌%◌, true, List, [], ◌∷◌, All, some, if◌then◌else◌, ◌==◌, arith, ◌≡◌, refl,
}
use comfyui_docker_helper.History.Windows.{window}
use comfyui_docker_helper.Replay.{
  HistorySpan, log_bytes, replay_complete, replay_history, select_tail, select_back, span_tail,
  scan, rfind, from_offset, replay_selected, has_gap, last_end, yield_spans, yield_span,
  missing_history,
}
use comfyui_docker_helper.Replay.Search.{Honest}
use comfyui_docker_helper.Replay.Selecting.{Chain}
use comfyui_docker_helper.Replay.Tails.{IsTail}
use comfyui_docker_helper.Replay.Guarantees.{Replayed, replay-IsTail}
use comfyui_docker_helper.Replay.Trust.{Trusted, replay_complete_lem}

-- A line feed at each offset that is 3 more than a multiple of 4.
abbrev some_stream : ℕ → ℕ
some_stream i = if i % 4 == 3 then 10 else 65

abbrev span_of : ℕ → ℕ → HistorySpan
span_of low high = record {
  start = low;
  end = high;
  reader = λ start size. some (window some_stream start size);
}

abbrev two_spans : List HistorySpan
two_spans = span_of 2 6 ∷ span_of 6 13 ∷ []

two_spans-Chain : Chain ⊥ some_stream 2 13 two_spans
two_spans-Chain = (
  record { ordered = omega arith; right = λ start size a b c. refl },
  refl,
  (record { ordered = omega arith; right = λ start size a b c. refl }, refl, refl),
)

-- Two lines and a half: the last line has no line feed yet.
two_spans_run :
    replay_history 0 two_spans 13 (some 3) true
    ≡ some (
        log_bytes (65 ∷ 65 ∷ [])
        ∷ log_bytes (65 ∷ 10 ∷ 65 ∷ 65 ∷ 65 ∷ 10 ∷ 65 ∷ [])
        ∷ replay_complete true
        ∷ [])
unfolding replay_history select_tail select_back span_tail scan rfind from_offset replay_selected
    has_gap last_end yield_spans yield_span
two_spans_run = refl

replay-IsTail_example :
    (at : ℕ) × IsTail some_stream 2 13 3 at
    × Replayed some_stream at 13 (replay_history 0 two_spans 13 (some 3) true)
replay-IsTail_example =
    replay-IsTail some_stream 2 13 3 0 true two_spans (omega arith) (omega arith) two_spans-Chain

abbrev spans_with_loss : List HistorySpan
spans_with_loss = record { start = 2; end = 6; reader = missing_history } ∷ span_of 6 13 ∷ []

spans_with_loss-Honest : All (Honest Unit some_stream) spans_with_loss
spans_with_loss-Honest = (
  record { ordered = omega arith; right = λ start size a b c. tt },
  (record { ordered = omega arith; right = λ start size a b c. refl }, tt),
)

replay_complete_lem_example :
    Trusted some_stream 13 (replay_history 0 spans_with_loss 13 (some 1) true)
replay_complete_lem_example =
    replay_complete_lem some_stream 13 0 (some 1) spans_with_loss spans_with_loss-Honest
