-- ===== src/Cadence.antt =====
-- src/comfyui_docker_helper/container/transfer/cadence.py: when a progress line is due. The clock's
-- readings are arguments; `observe` reads the clock once more when it polls. A reading is a double that
-- is not negative, and stands here as its multiple of 2 ^ -1074 s, which it is exactly; the arithmetic
-- rounds as the doubles do. Where a clock ran backwards the difference here is 0, which gives the same
-- comparisons as the code's negative one.
pub mod Rounding
pub mod Heartbeats
mod Examples
use comfyui_docker_helper.Prelude.{
  ℕ, ◌*◌, ◌^◌, Bool, true, false, Option, none, some, ltb, leb, ◌==◌, if◌then◌else◌,
}
use comfyui_docker_helper.Cadence.Rounding.{float_plus, float_minus}

unfoldable pub active_progress_interval : ℕ
active_progress_interval = 10 * 2 ^ 1074

unfoldable pub stalled_progress_interval : ℕ
stalled_progress_interval = 30 * 2 ^ 1074

pub data CadenceDecision : Type 0 where
  suppress active stalled recovered : CadenceDecision

pub record Cadence : Type 0 where
  pub transferred_bytes : ℕ
  pub last_change_at : ℕ
  pub last_active_at : ℕ
  pub last_stalled_at : Option ℕ
  pub is_stalled : Bool

-- `PlainDownloadCadence.__init__`
unfoldable pub new_cadence : ℕ → Cadence
new_cadence now = record {
  transferred_bytes = 0;
  last_change_at = now;
  last_active_at = now;
  last_stalled_at = none;
  is_stalled = false;
}

-- `stalled_at is not None and now - stalled_at >= interval`
abbrev pub stall_line_due : Option ℕ → ℕ → Bool
stall_line_due none now = false
stall_line_due (some at) now = leb stalled_progress_interval (float_minus now at)

unfoldable pub poll : ℕ → Cadence → CadenceDecision × Cadence
poll now c =
    if c.is_stalled
    then (if stall_line_due c.last_stalled_at now
        then (stalled, record c { last_stalled_at = some now })
        else (suppress, c))
    else if ltb (float_minus now c.last_change_at) stalled_progress_interval
    then (suppress, c)
    else (stalled, record c { is_stalled = true; last_stalled_at = some now })

-- `now` is the reading of `observe`, `later` the one of the poll.
unfoldable pub observe : ℕ → ℕ → ℕ → Cadence → CadenceDecision × Cadence
unfolding poll
observe now later bytes c =
    if bytes == c.transferred_bytes
    then poll later c
    else if c.is_stalled
    then (
      recovered,
      record c {
        transferred_bytes = bytes;
        last_change_at = now;
        is_stalled = false;
        last_stalled_at = none;
        last_active_at = now;
      },
    )
    else if leb active_progress_interval (float_minus now c.last_active_at)
    then (
      active,
      record c { transferred_bytes = bytes; last_change_at = now; last_active_at = now },
    )
    else (suppress, record c { transferred_bytes = bytes; last_change_at = now })

abbrev stall_deadline : Bool → Option ℕ → ℕ → ℕ
stall_deadline true (some at) changed = float_plus at stalled_progress_interval
stall_deadline _ _ changed = float_plus changed stalled_progress_interval

unfoldable pub next_poll_delay : ℕ → Cadence → ℕ
next_poll_delay now c =
    float_minus (stall_deadline c.is_stalled c.last_stalled_at c.last_change_at) now
