-- ===== src/Attempts/Delays.antt =====
-- The waits between attempts, `_selected_delay`
-- (src/comfyui_docker_helper/container/transfer/coordinator.py).
use comfyui_docker_helper.Prelude.{ℕ, ◌*◌, ◌^◌, ◌≤◌, ◌<◌, ◌⊎◌, Option, none, some, arith, ◌≡◌}
use comfyui_docker_helper.Attempts.Loop.{selected_delay}

-- A wait, in milliseconds, of at most 30 s that is no shorter than the backoff nor than the wish of the server,
-- where these are within it; none where the backoff is no float.
pub Waits : ℕ → Option ℕ → Option ℕ → Type 0
Waits attempt wish none = 1024 < attempt
Waits attempt none (some delay) =
    (attempt ≤ 1024) × (delay ≤ 30000) × ((500 * 2 ^ attempt ≤ delay) ⊎ (delay ≡ 30000))
Waits attempt (some wish) (some delay) =
    (attempt ≤ 1024)
    × (delay ≤ 30000)
    × ((500 * 2 ^ attempt ≤ delay) ⊎ (delay ≡ 30000))
    × ((wish ≤ delay) ⊎ (delay ≡ 30000))

-- Up to attempt 1024 the wait is at most 30 s, and no shorter than the backoff and the wish of the
-- server where these are below that; after attempt 1024 there is no wait but an overflow.
pub selected_delay-Waits :
    (attempt : ℕ) → (wish : Option ℕ) → Waits attempt wish (selected_delay attempt wish)
unfolding selected_delay Waits
selected_delay-Waits attempt none = ground arith
selected_delay-Waits attempt (some wish) = ground arith
