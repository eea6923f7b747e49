-- ===== src/Delivery.antt =====
-- src/comfyui_docker_helper/container/runtime/event_delivery.py: the bounded queue between the
-- background producers of the runtime and the presentation. Each method runs under the delivery's
-- lock and is one step; the worker thread calls `drain_once`. An event keeps the class that the code
-- tests, with an abstract payload; a progress scope is an object, named by a number. The clock's
-- readings are arguments.
pub mod Drain
pub mod Sorting
pub mod Order
pub mod Accounts
pub mod Transitions
pub mod Bounds
pub mod Emission
mod Examples
use comfyui_docker_helper.Prelude.{
  ℕ, ◌+◌, Bool, true, false, Option, none, some, List, [], ◌∷◌, ◌++◌, map, length, ltb, ◌==◌,
  if◌then◌else◌, not, ◌||◌,
}
use comfyui_docker_helper.Cadence.{Cadence, CadenceDecision, suppress, new_cadence, observe}

pub data ProgressState : Type 0 where
  active stalled recovered : ProgressState

pub data WarningCategory : Type 0 where
  stale_cleanup download_failure ssh log_storage : WarningCategory

-- `RuntimeDownloadItemProgress`
pub record ItemProgress (P : Type 0) : Type 0 where
  pub details : P
  pub transferred_bytes : ℕ
  pub state : ProgressState

-- `RuntimeBackgroundEvent`
pub data BackgroundEvent (P : Type 0) : Type 0 where
  reconciled queue_summary attempt_started item_retry_scheduled : P → BackgroundEvent P
  verification_started item_completed : P → BackgroundEvent P
  queue_warning stale_cleanup_pending download_failed ssh_warning : P → BackgroundEvent P
  log_storage_warning : P → BackgroundEvent P
  item_progress : ItemProgress P → BackgroundEvent P

-- What leaves the queue: a background event, or one of the two aggregates.
pub data RuntimeEvent (P : Type 0) : Type 0 where
  background : BackgroundEvent P → RuntimeEvent P
  warnings_aggregated : WarningCategory → ℕ → RuntimeEvent P
  presentation_saturated : ℕ → RuntimeEvent P

pub record QueuedEvent (P : Type 0) : Type 0 where
  pub sequence : ℕ
  pub event : BackgroundEvent P

pub record ProgressSlot (P : Type 0) : Type 0 where
  pub latest : ItemProgress P
  pub cadence : Cadence
  pub pending : CadenceDecision

pub record Delivery (P : Type 0) : Type 0 where
  pub transition_capacity : ℕ
  pub warning_capacity : ℕ
  pub progress_capacity : ℕ
  pub information_enabled : Bool
  pub progress_enabled : Bool
  pub transitions : List (QueuedEvent P)
  pub warnings : List (QueuedEvent P)
  pub warning_counts : WarningCategory → ℕ
  pub progress : List (ℕ × ProgressSlot P)
  pub omitted_transitions : ℕ
  pub next_sequence : ℕ
  pub closed : Bool
  pub close_deadline : Option ℕ

-- What a producer sees of a call: whether the worker was woken, or the `TypeError`.
pub data Offered : Type 0 where
  woken ignored type_error : Offered

module _ {P : Type 0} where
  -- `_warning_category`
  abbrev pub warning_category : BackgroundEvent P → Option WarningCategory
  warning_category (stale_cleanup_pending p) = some stale_cleanup
  warning_category (download_failed p) = some download_failure
  warning_category (queue_warning p) = some download_failure
  warning_category (log_storage_warning p) = some log_storage
  warning_category (ssh_warning p) = some ssh
  warning_category _ = none

  abbrev pub is_progress : BackgroundEvent P → Bool
  is_progress (item_progress p) = true
  is_progress _ = false

abbrev pub same_category : WarningCategory → WarningCategory → Bool
same_category stale_cleanup stale_cleanup = true
same_category download_failure download_failure = true
same_category ssh ssh = true
same_category log_storage log_storage = true
same_category _ _ = false

-- `self._warning_counts[category] += 1`
abbrev pub count_warning : WarningCategory → (WarningCategory → ℕ) → WarningCategory → ℕ
count_warning c counts d = if same_category c d then counts d + 1 else counts d

-- `_progress_state`
abbrev pub progress_state : CadenceDecision → Option ProgressState
progress_state suppress = none
progress_state CadenceDecision.active = some ProgressState.active
progress_state CadenceDecision.stalled = some ProgressState.stalled
progress_state CadenceDecision.recovered = some ProgressState.recovered

abbrev pub is_suppress : CadenceDecision → Bool
is_suppress suppress = true
is_suppress _ = false

module _ {P : Type 0} where
  -- `_queued`, with the counter that it advances left to the callers.
  abbrev pub queued : Delivery P → BackgroundEvent P → QueuedEvent P
  queued d event = record { sequence = d.next_sequence; event = event }

  unfoldable pub offer_warning : WarningCategory → BackgroundEvent P → Delivery P → Delivery P
  offer_warning category event d =
      if ltb (length d.warnings) d.warning_capacity
      then record d {
        warnings = d.warnings ++ queued d event ∷ [];
        next_sequence = d.next_sequence + 1;
      }
      else record d { warning_counts = count_warning category d.warning_counts }

  unfoldable pub offer_transition : BackgroundEvent P → Delivery P → Delivery P
  offer_transition event d =
      if ltb (length d.transitions) d.transition_capacity
      then record d {
        transitions = d.transitions ++ queued d event ∷ [];
        next_sequence = d.next_sequence + 1;
      }
      else record d { omitted_transitions = d.omitted_transitions + 1 }

  -- `emit` behind its two early exits.
  unfoldable pub offer :
      Option WarningCategory → BackgroundEvent P → Delivery P → Offered × Delivery P
  offer (some category) event d = (woken, offer_warning category event d)
  offer none event d =
      if not d.information_enabled then (ignored, d) else (woken, offer_transition event d)

  unfoldable pub emit : BackgroundEvent P → Delivery P → Offered × Delivery P
  emit event d =
      if is_progress event
      then (type_error, d)
      else if d.closed
      then (ignored, d)
      else offer (warning_category event) event d

  -- `self._progress.get(scope)`
  unfoldable pub find_slot : ℕ → List (ℕ × ProgressSlot P) → Option (ProgressSlot P)
  find_slot scope [] = none
  find_slot scope ((s, slot) ∷ rest) = if s == scope then some slot else find_slot scope rest

  -- `self._progress.pop(scope, None)`
  unfoldable pub pop_slot : ℕ → List (ℕ × ProgressSlot P) → List (ℕ × ProgressSlot P)
  pop_slot scope [] = []
  pop_slot scope ((s, slot) ∷ rest) = if s == scope then rest else (s, slot) ∷ pop_slot scope rest

  -- `self._progress.popitem(last=False)`
  unfoldable pub pop_oldest : List (ℕ × ProgressSlot P) → List (ℕ × ProgressSlot P)
  pop_oldest [] = []
  pop_oldest (s ∷ rest) = rest

  abbrev pub observed : ℕ → ℕ → ItemProgress P → CadenceDecision → Cadence → ProgressSlot P
  observed now later event pending cadence =
      let (decision, c) = observe now later event.transferred_bytes cadence in
      record {
        latest = event;
        cadence = c;
        pending = if is_suppress decision then pending else decision;
      }

  -- The slot that `emit_progress` leaves for the scope: a new one last, or the old one moved last.
  unfoldable pub place_slot :
      ℕ → ℕ → ℕ → ℕ → ItemProgress P → Option (ProgressSlot P) → Delivery P → Delivery P
  place_slot created now later scope event none d =
      if ltb (length d.progress) d.progress_capacity
      then record d {
        progress =
            d.progress ++ (scope, observed now later event suppress (new_cadence created)) ∷ [];
      }
      else record d {
        progress =
            pop_oldest d.progress
            ++ (scope, observed now later event suppress (new_cadence created)) ∷ [];
        omitted_transitions = d.omitted_transitions + 1;
      }
  place_slot created now later scope event (some slot) d = record d {
    progress =
        pop_slot scope d.progress
        ++ (scope, observed now later event slot.pending slot.cadence) ∷ [];
  }

  -- `created` is the clock's reading by a new cadence, `now` and `later` those of `observe`.
  unfoldable pub emit_progress : ℕ → ℕ → ℕ → ℕ → ItemProgress P → Delivery P → Offered × Delivery P
  emit_progress created now later scope event d =
      if d.closed || not d.progress_enabled
      then (ignored, d)
      else (woken, place_slot created now later scope event (find_slot scope d.progress) d)

  unfoldable pub close_progress : ℕ → Delivery P → Delivery P
  close_progress scope d = record d { progress = pop_slot scope d.progress }

  unfoldable pub close : ℕ → Delivery P → Delivery P
  close deadline d =
      if d.closed then d else record d { close_deadline = some deadline; closed = true }
