-- ===== src/Cadence/Heartbeats.antt =====
-- The cadence of src/comfyui_docker_helper/container/transfer/cadence.py against a watch with a single
-- timer, however the clock is read and rounded.
use comfyui_docker_helper.Prelude.{
  ℕ, ◌≡◌, refl, Bool, true, false, Option, some, if◌then◌else◌, leb, ◌==◌, arith, List, [], ◌∷◌,
}
use comfyui_docker_helper.Cadence.{
  Cadence, CadenceDecision, suppress, active, stalled, recovered, new_cadence, poll, observe,
  next_poll_delay, stalled_progress_interval, active_progress_interval,
}
use comfyui_docker_helper.Cadence.Rounding.{float_plus, float_minus}

-- What a transfer does to its cadence, with the readings of the clock.
pub data Reading : Type 0 where
  polls : ℕ → Reading
  observes : ℕ → ℕ → ℕ → Reading

abbrev pub read : Reading → Cadence → CadenceDecision × Cadence
read (polls now) c = poll now c
read (observes now later bytes) c = observe now later bytes c

-- The decisions of a run, and the cadence that it leaves.
unfoldable pub decisions : List Reading → Cadence → List CadenceDecision
decisions [] c = []
decisions (r ∷ rs) c = (read r c).0 ∷ decisions rs (read r c).1

pub read_all : List Reading → Cadence → Cadence
read_all [] c = c
read_all (r ∷ rs) c = read_all rs (read r c).1

-- A watch counts the time since the last change of the bytes or the last line about a stall, whichever
-- came later.
pub record Watch : Type 0 where
  pub bytes : ℕ
  pub since : ℕ
  pub active_since : ℕ
  pub in_stall : Bool

abbrev pub new_watch : ℕ → Watch
new_watch start = record { bytes = 0; since = start; active_since = start; in_stall = false }

abbrev pub look : ℕ → Watch → CadenceDecision × Watch
look now w =
    if leb stalled_progress_interval (float_minus now w.since)
    then (stalled, record w { since = now; in_stall = true })
    else (suppress, w)

-- The bytes changed: a line of recovery ends a stall, and a line about a transfer that moves is due when
-- the last one of either kind is old enough.
abbrev pub change : ℕ → ℕ → Watch → CadenceDecision × Watch
change now bytes w =
    if w.in_stall
    then (recovered, record { bytes = bytes; since = now; active_since = now; in_stall = false })
    else if leb active_progress_interval (float_minus now w.active_since)
    then (active, record { bytes = bytes; since = now; active_since = now; in_stall = false })
    else (suppress, record w { bytes = bytes; since = now })

abbrev pub watch : Reading → Watch → CadenceDecision × Watch
watch (polls now) w = look now w
watch (observes now later bytes) w = if bytes == w.bytes then look later w else change now bytes w

pub watch_decisions : List Reading → Watch → List CadenceDecision
watch_decisions [] w = []
watch_decisions (r ∷ rs) w = (watch r w).0 ∷ watch_decisions rs (watch r w).1

pub watch_all : List Reading → Watch → Watch
watch_all [] w = w
watch_all (r ∷ rs) w = watch_all rs (watch r w).1

-- The time that the cadence keeps for the next line about a stall.
abbrev Timer : Bool → Option ℕ → ℕ → ℕ → Type 0
Timer true at changed since = at ≡ some since
Timer false at changed since = changed ≡ since

record Shows (c : Cadence) (w : Watch) : Type 0 where
  bytes : c.transferred_bytes ≡ w.bytes
  active_since : c.last_active_at ≡ w.active_since
  in_stall : c.is_stalled ≡ w.in_stall
  timer : Timer c.is_stalled c.last_stalled_at c.last_change_at w.since

record Agrees (x : CadenceDecision × Cadence) (y : CadenceDecision × Watch) : Type 0 where
  same : x.0 ≡ y.0
  shows : Shows x.1 y.1

look-Agrees : (now : ℕ) (c : Cadence) (w : Watch) → Shows c w → Agrees (poll now c) (look now w)
unfolding poll
look-Agrees now c w h = ground arith

read-Agrees : (r : Reading) (c : Cadence) (w : Watch) → Shows c w → Agrees (read r c) (watch r w)
unfolding observe
read-Agrees (polls now) c w h = look-Agrees now c w h
read-Agrees (observes now later bytes) c w h = ground (arith, look-Agrees later c w h)

decisions-watch :
    (rs : List Reading) (c : Cadence) (w : Watch)
    → Shows c w
    → (decisions rs c ≡ watch_decisions rs w) × Shows (read_all rs c) (watch_all rs w)
unfolding decisions watch_decisions read_all watch_all
decisions-watch [] c w h = (refl, h)
decisions-watch (r ∷ rs) c w h =
    let now = read-Agrees r c w h in
    let (same, shows) = decisions-watch rs (read r c).1 (watch r w).1 now.shows in
    (cc (now.same, same), shows)

delay-timer :
    (now : ℕ) (c : Cadence) (w : Watch)
    → Shows c w
    → next_poll_delay now c ≡ float_minus (float_plus w.since stalled_progress_interval) now
unfolding next_poll_delay
delay-timer now c w h = ground (arith, h)

-- Whatever a transfer does and however the clock is read and rounded, the cadence decides as a watch
-- whose single timer is the last change of the bytes or the last line about a stall, and at any time
-- afterwards the delay to the next poll is what is left of the stalled interval from this timer on, in
-- the arithmetic of the doubles.
pub cadence-watch :
    (start now : ℕ) (rs : List Reading)
    → (decisions rs (new_cadence start) ≡ watch_decisions rs (new_watch start))
      × (next_poll_delay now (read_all rs (new_cadence start))
          ≡ float_minus
              (float_plus (watch_all rs (new_watch start)).since stalled_progress_interval)
              now)
unfolding new_cadence
cadence-watch start now rs =
    let fresh : Shows (new_cadence start) (new_watch start) = record {
      bytes = refl;
      active_since = refl;
      in_stall = refl;
      timer = refl;
    } in
    let (same, shows) = decisions-watch rs (new_cadence start) (new_watch start) fresh in
    (same, delay-timer now (read_all rs (new_cadence start)) (watch_all rs (new_watch start)) shows)
