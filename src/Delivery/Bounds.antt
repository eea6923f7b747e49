-- ===== src/Delivery/Bounds.antt =====
-- The bounds of src/comfyui_docker_helper/container/runtime/event_delivery.py over any calls.
use comfyui_docker_helper.Prelude.{
  ℕ, ◌+◌, ◌≤◌, ◌≡◌, refl, inl, inr, Bool, Option, none, some, List, [], ◌∷◌, length, length-append,
  arith, not, Bool-cases, ◌||◌,
}
use comfyui_docker_helper.Delivery.{
  BackgroundEvent, ItemProgress, Delivery, ProgressSlot, emit, offer, offer_warning,
  offer_transition, emit_progress, close_progress, close, find_slot, pop_slot, pop_oldest,
  place_slot, queued, is_progress, warning_category, observed, WarningCategory,
}
use comfyui_docker_helper.Cadence.{suppress, new_cadence}
use comfyui_docker_helper.Delivery.Drain.{take_outgoing, settled_slots}

pub data Call (P : Type 0) : Type 0 where
  emits : BackgroundEvent P → Call P
  progresses : ℕ → ℕ → ℕ → ℕ → ItemProgress P → Call P
  forgets : ℕ → Call P
  drains : Bool → (ℕ → ℕ) → Call P
  closes : ℕ → Call P

module _ {P : Type 0} where
  pub record InBounds (d : Delivery P) : Type 0 where
    pub warnings_fit : length d.warnings ≤ d.warning_capacity
    pub transitions_fit : length d.transitions ≤ d.transition_capacity
    pub progress_fits : length d.progress ≤ d.progress_capacity
    pub progress_room : 1 ≤ d.progress_capacity

  length-pop_slot :
      (scope : ℕ) (l : List (ℕ × ProgressSlot P)) → length (pop_slot scope l) ≤ length l
  unfolding pop_slot
  length-pop_slot scope [] = omega arith
  length-pop_slot scope ((s, slot) ∷ rest) = ground (arith, length-pop_slot scope rest)

  length-pop_slot_found :
      (scope : ℕ) (slot : ProgressSlot P) (l : List (ℕ × ProgressSlot P))
      → find_slot scope l ≡ some slot
      → length (pop_slot scope l) + 1 ≡ length l
  unfolding pop_slot find_slot
  length-pop_slot_found scope slot [] h = cc
  length-pop_slot_found scope slot ((s, t) ∷ rest) h =
      ground (arith, length-pop_slot_found scope slot rest)

  pop_oldest_shorter :
      (l : List (ℕ × ProgressSlot P)) (n : ℕ) → 1 ≤ n → length l ≤ n → length (pop_oldest l) + 1 ≤ n
  unfolding pop_oldest
  pop_oldest_shorter [] n h k = omega arith
  pop_oldest_shorter (s ∷ rest) n h k = omega arith

  length-settled_slots :
      (final : Bool) (clock : ℕ → ℕ) (l : List (ℕ × ProgressSlot P))
      → length (settled_slots final clock l) ≡ length l
  unfolding settled_slots
  length-settled_slots final clock [] = refl
  length-settled_slots final clock ((s, slot) ∷ rest) =
      omega (arith, length-settled_slots final clock rest)

  pub step : Delivery P → Call P → Delivery P
  step d (emits event) = (emit event d).1
  step d (progresses created now later scope event) =
      (emit_progress created now later scope event d).1
  step d (forgets scope) = close_progress scope d
  step d (drains final clock) = (take_outgoing final clock d).1
  step d (closes deadline) = close deadline d

  pub run : Delivery P → List (Call P) → Delivery P
  run d [] = d
  run d (call ∷ calls) = run (step d call) calls

  offer-InBounds :
      (o : Option WarningCategory) (event : BackgroundEvent P) (d : Delivery P)
      → InBounds d
      → InBounds (offer o event d).1
  unfolding offer offer_warning offer_transition
  offer-InBounds (some c) event d h = ground (arith, length-append d.warnings (queued d event ∷ []))
  offer-InBounds none event d h = ground (arith, length-append d.transitions (queued d event ∷ []))

  emit-InBounds :
      (event : BackgroundEvent P) (d : Delivery P) → InBounds d → InBounds (emit event d).1
  unfolding emit
  emit-InBounds event d h = elim (Bool-cases (is_progress event)) [
    | inl p ↦ rw p h
    | inr q ↦ rw q (elim (Bool-cases d.closed) [
      | inl c ↦ simp c h
      | inr c ↦ simp c (offer-InBounds (warning_category event) event d h)
    ])
  ]

  place_slot-InBounds :
      (created now later scope : ℕ) (event : ItemProgress P) (o : Option (ProgressSlot P))
      (d : Delivery P)
      → find_slot scope d.progress ≡ o
      → InBounds d
      → InBounds (place_slot created now later scope event o d)
  unfolding place_slot
  place_slot-InBounds created now later scope event none d e h =
      let slot : ℕ × ProgressSlot P =
        (scope, observed now later event suppress (new_cadence created)) in
      ground (
        arith,
        length-append d.progress (slot ∷ []),
        length-append (pop_oldest d.progress) (slot ∷ []),
        pop_oldest_shorter d.progress d.progress_capacity,
      )
  place_slot-InBounds created now later scope event (some slot) d e h = ground (
    arith,
    length-append (pop_slot scope d.progress)
        ((scope, observed now later event slot.pending slot.cadence) ∷ []),
    length-pop_slot_found scope slot d.progress e,
  )

  emit_progress-InBounds :
      (created now later scope : ℕ) (event : ItemProgress P) (d : Delivery P)
      → InBounds d
      → InBounds (emit_progress created now later scope event d).1
  unfolding emit_progress
  emit_progress-InBounds created now later scope event d h =
      elim (Bool-cases (d.closed || not d.progress_enabled)) [
        | inl shut ↦ rw shut h
        | inr on ↦ rw on (
            place_slot-InBounds created now later scope event (find_slot scope d.progress) d refl h)
      ]

  step-InBounds : (d : Delivery P) (call : Call P) → InBounds d → InBounds (step d call)
  unfolding step close_progress close take_outgoing
  step-InBounds d (emits event) h = emit-InBounds event d h
  step-InBounds d (progresses created now later scope event) h =
      emit_progress-InBounds created now later scope event d h
  step-InBounds d (forgets scope) h = grind (arith, length-pop_slot scope d.progress)
  step-InBounds d (drains final clock) h =
      ground (arith, length-settled_slots (final || d.closed) clock d.progress)
  step-InBounds d (closes deadline) h = ground arith

  -- After any calls of the producers and the worker, the queues and the progress slots stay within
  -- their capacities, if they were.
  pub run-InBounds : (d : Delivery P) (calls : List (Call P)) → InBounds d → InBounds (run d calls)
  unfolding run
  run-InBounds d [] h = h
  run-InBounds d (call ∷ calls) h = run-InBounds (step d call) calls (step-InBounds d call h)
