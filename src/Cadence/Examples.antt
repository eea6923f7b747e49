-- ===== src/Cadence/Examples.antt =====
-- Runs of the cadence (src/comfyui_docker_helper/container/transfer/cadence.py).
use comfyui_docker_helper.Prelude.{ℕ, ◌*◌, ◌^◌, ◌+◌, ◌≡◌, refl, List, [], ◌∷◌}
use comfyui_docker_helper.Cadence.{
  suppress, active, stalled, recovered, new_cadence, poll, observe, next_poll_delay,
  stalled_progress_interval, active_progress_interval,
}
use comfyui_docker_helper.Cadence.Rounding.{float_plus, float_minus, rounded, last_digit, round_to}
use comfyui_docker_helper.Cadence.Heartbeats.{
  Reading, polls, observes, decisions, read_all, new_watch, watch_decisions, watch_all,
  cadence-watch,
}

abbrev seconds : ℕ → ℕ
seconds n = n * 2 ^ 1074

-- A transfer moves after 5 s, stalls for 70 s and moves again.
abbrev readings : List Reading
readings =
    observes (seconds 5) (seconds 5) 10
    ∷ polls (seconds 34)
    ∷ polls (seconds 35)
    ∷ polls (seconds 64)
    ∷ observes (seconds 66) (seconds 66) 10
    ∷ observes (seconds 75) (seconds 75) 11
    ∷ observes (seconds 85) (seconds 85) 12
    ∷ []

cadence_run :
    decisions readings (new_cadence 0)
    ≡ suppress ∷ suppress ∷ stalled ∷ suppress ∷ stalled ∷ recovered ∷ active ∷ []
unfolding decisions new_cadence poll observe stalled_progress_interval active_progress_interval
    float_minus rounded last_digit round_to
cadence_run = refl

cadence-watch_example :
    (decisions readings (new_cadence 0) ≡ watch_decisions readings (new_watch 0))
    × (next_poll_delay (seconds 90) (read_all readings (new_cadence 0))
        ≡ float_minus
            (float_plus (watch_all readings (new_watch 0)).since stalled_progress_interval)
            (seconds 90))
cadence-watch_example = cadence-watch 0 (seconds 90) readings

-- At 243.36147733136082 s and 30 s later, as doubles, no delay is left, and yet the poll is not due.
rounding_gap :
    let c = new_cadence (8562520770514453 * 2 ^ 1029) in
    (next_poll_delay (2404512983294853 * 2 ^ 1031) c ≡ 0)
    × ((poll (2404512983294853 * 2 ^ 1031) c).0 ≡ suppress)
unfolding new_cadence poll next_poll_delay stalled_progress_interval float_minus float_plus rounded
    last_digit round_to
rounding_gap = (refl, refl)

-- The digit that is lost: 2 ^ 53 + 1 rounds down to even, 2 ^ 53 + 3 up.
rounds_to_even : (rounded (2 ^ 53 + 1) ≡ 2 ^ 53) × (rounded (2 ^ 53 + 3) ≡ 2 ^ 53 + 4)
unfolding rounded last_digit round_to
rounds_to_even = (refl, refl)
