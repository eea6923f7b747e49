-- ===== src/Delivery/Drain.antt =====
-- `_drain_once` of src/comfyui_docker_helper/container/runtime/event_delivery.py, and the sink that
-- it emits to. The events are taken under the lock and emitted after it is released, so the two
-- parts are two definitions.
use comfyui_docker_helper.Prelude.{
  ℕ, suc, Bool, true, false, Option, none, some, List, [], ◌∷◌, ◌++◌, map, min, leb, ◌==◌,
  if◌then◌else◌, not, ◌||◌, ◌&&◌, is_some,
}
use comfyui_docker_helper.Cadence.{CadenceDecision, suppress, poll, next_poll_delay}
use comfyui_docker_helper.Delivery.{
  ProgressState, WarningCategory, stale_cleanup, download_failure, ssh, log_storage, ItemProgress,
  item_progress, RuntimeEvent, background, warnings_aggregated, presentation_saturated, QueuedEvent,
  ProgressSlot, Delivery, progress_state, is_suppress,
}

-- `_FailureLatchingRuntimeEventSink`: what reached the wrapped sink, and whether that failed.
pub record Sink (P : Type 0) : Type 0 where
  pub received : List (RuntimeEvent P)
  pub has_failed : Bool

module _ {P : Type 0} where
  -- `retained.sort(key=lambda item: item.sequence)`, which is stable.
  unfoldable pub insert_queued : QueuedEvent P → List (QueuedEvent P) → List (QueuedEvent P)
  insert_queued q [] = q ∷ []
  insert_queued q (r ∷ rest) =
      if leb q.sequence r.sequence then q ∷ r ∷ rest else r ∷ insert_queued q rest

  unfoldable pub sort_queued : List (QueuedEvent P) → List (QueuedEvent P)
  sort_queued [] = []
  sort_queued (q ∷ rest) = insert_queued q (sort_queued rest)

  unfoldable pub retained : Delivery P → List (QueuedEvent P)
  retained d = sort_queued (d.warnings ++ d.transitions)

  abbrev pub aggregate : WarningCategory → ℕ → List (RuntimeEvent P)
  aggregate category count = if count == 0 then [] else warnings_aggregated category count ∷ []

  -- The loop over `_warning_counts`, in the order of the enumeration.
  unfoldable pub aggregated : (WarningCategory → ℕ) → List (RuntimeEvent P)
  aggregated counts =
      aggregate stale_cleanup (counts stale_cleanup)
      ++ aggregate download_failure (counts download_failure)
      ++ aggregate ssh (counts ssh)
      ++ aggregate log_storage (counts log_storage)

  unfoldable pub saturation : ℕ → List (RuntimeEvent P)
  saturation omitted = if omitted == 0 then [] else presentation_saturated omitted ∷ []

  -- The decision about one slot, and the slot that is left.
  unfoldable pub settle : Bool → ℕ → ProgressSlot P → CadenceDecision × ProgressSlot P
  settle final now slot =
      if is_suppress slot.pending && not final
      then (let (decision, cadence) = poll now slot.cadence in
          (decision, record slot { pending = suppress; cadence = cadence }))
      else (slot.pending, record slot { pending = suppress })

  abbrev pub progress_line : ItemProgress P → Option ProgressState → List (RuntimeEvent P)
  progress_line latest none = []
  progress_line latest (some state) =
      background (item_progress (record latest { state = state })) ∷ []

  -- The events of the loop over the slots; `clock` gives the reading of each scope's poll.
  unfoldable pub progress_events :
      Bool → (ℕ → ℕ) → List (ℕ × ProgressSlot P) → List (RuntimeEvent P)
  progress_events final clock [] = []
  progress_events final clock ((scope, slot) ∷ rest) =
      progress_line slot.latest (progress_state (settle final (clock scope) slot).0)
      ++ progress_events final clock rest

  unfoldable pub settled_slots :
      Bool → (ℕ → ℕ) → List (ℕ × ProgressSlot P) → List (ℕ × ProgressSlot P)
  settled_slots final clock [] = []
  settled_slots final clock ((scope, slot) ∷ rest) =
      (scope, (settle final (clock scope) slot).1) ∷ settled_slots final clock rest

  -- `min(next_delays)`, with a second reading for each slot.
  unfoldable pub least_delay : (ℕ → ℕ) → List (ℕ × ProgressSlot P) → Option ℕ
  least_delay clock [] = none
  least_delay clock ((scope, slot) ∷ rest) =
      let delay = next_poll_delay (clock scope) slot.cadence in
      elim (least_delay clock rest) [ none ↦ some delay | some other ↦ some (min delay other) ]

  -- The part of `_drain_once` under the lock.
  unfoldable pub take_outgoing : Bool → (ℕ → ℕ) → Delivery P → List (RuntimeEvent P) × Delivery P
  take_outgoing final clock d =
      let ending = final || d.closed in
      (
        map (λ q. background q.event) (retained d)
            ++ (aggregated d.warning_counts
                ++ (saturation d.omitted_transitions ++ progress_events ending clock d.progress)),
        record d {
          warnings = [];
          transitions = [];
          next_sequence = 0;
          warning_counts = λ _. 0;
          omitted_transitions = 0;
          progress = if ending then [] else settled_slots ending clock d.progress;
        },
      )

  -- The delay that `_drain_once` returns: none on the last drain or without slots.
  unfoldable pub drain_delay : Bool → (ℕ → ℕ) → (ℕ → ℕ) → Delivery P → Option ℕ
  drain_delay final clock delays d =
      if final || d.closed then none else least_delay delays (settled_slots false clock d.progress)

  -- `breaks` says whether the wrapped sink raises on an event.
  unfoldable pub emit_latched : (RuntimeEvent P → Bool) → RuntimeEvent P → Sink P → Sink P
  emit_latched breaks event s =
      if s.has_failed
      then s
      else if breaks event
      then record s { has_failed = true }
      else record s { received = s.received ++ event ∷ [] }

  -- The loop that emits: with a close deadline, `late` says whether the deadline has passed or the
  -- force was requested by the n-th event.
  unfoldable pub emit_all :
      (RuntimeEvent P → Bool) → Option ℕ → (ℕ → Bool) → ℕ → List (RuntimeEvent P) → Sink P → Sink P
  emit_all breaks deadline late n [] s = s
  emit_all breaks deadline late n (event ∷ rest) s =
      let go = emit_all breaks deadline late (suc n) rest (emit_latched breaks event s) in
      if is_some deadline && late n then s else go
