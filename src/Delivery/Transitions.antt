-- ===== src/Delivery/Transitions.antt =====
-- No transition that is offered to src/comfyui_docker_helper/container/runtime/event_delivery.py
-- vanishes while information is on: the saturation event counts what the queue has no room for.
use comfyui_docker_helper.Prelude.{
  ℕ, ◌+◌, ◌≡◌, refl, sym, ◌∙◌, inl, inr, ap, Bool, true, false, Option, none, some, List, [], ◌∷◌,
  total, total-snoc, arith, if◌then◌else◌, Bool-cases, ltb, length, is_some,
}
use comfyui_docker_helper.Delivery.{
  WarningCategory, BackgroundEvent, QueuedEvent, Delivery, queued, warning_category, is_progress,
  emit, offer, offer_warning, offer_transition, item_progress,
}
use comfyui_docker_helper.Delivery.Drain.{take_outgoing}
use comfyui_docker_helper.Delivery.Order.{emit_each}
use comfyui_docker_helper.Delivery.Accounts.{
  informs, tells, held, total-take_outgoing, emit-closed, tells-aggregated, tells-saturation,
}

module _ {P : Type 0} where
  offer-informs :
      (o : Option WarningCategory) (event : BackgroundEvent P) (d : Delivery P)
      → o ≡ warning_category event
      → is_progress event ≡ false
      → d.information_enabled ≡ true
      → held informs (offer o event d).1 + (offer o event d).1.omitted_transitions
        ≡ held informs d + d.omitted_transitions + (if is_some o then 0 else 1)
  unfolding offer offer_warning offer_transition
  offer-informs (some k) event d e no_progress on =
      let moved = total-snoc (λ r. informs r.event) d.warnings (queued d event) in
      elim (Bool-cases (ltb (length d.warnings) d.warning_capacity)) [
        | inl room ↦ rw room (omega (arith, moved, silent))
        | inr full ↦ rw full (omega arith)
      ]
    where
      silent : informs event ≡ 0
      silent = rw no_progress (rw (sym e) refl)
  offer-informs none event d e no_progress on =
      let moved = total-snoc (λ r. informs r.event) d.transitions (queued d event) in
      simp on (elim (Bool-cases (ltb (length d.transitions) d.transition_capacity)) [
        | inl room ↦ rw room (omega (arith, moved, spoken))
        | inr full ↦ rw full (omega arith)
      ])
    where
      spoken : informs event ≡ 1
      spoken = rw no_progress (rw (sym e) refl)

  informs-emit :
      (event : BackgroundEvent P) (d : Delivery P)
      → d.closed ≡ false
      → d.information_enabled ≡ true
      → held informs (emit event d).1 + (emit event d).1.omitted_transitions
        ≡ held informs d + d.omitted_transitions + informs event
  unfolding emit
  informs-emit (item_progress p) d h on = omega arith
  informs-emit event d h on = simp h (offer-informs (warning_category event) event d refl refl on)

  emit-information :
      (event : BackgroundEvent P) (d : Delivery P)
      → (emit event d).1.information_enabled ≡ d.information_enabled
  unfolding emit offer offer_warning offer_transition
  emit-information (item_progress p) d = refl
  emit-information _ d = ground arith

  emit_each-informs :
      (events : List (BackgroundEvent P)) (d : Delivery P)
      → d.closed ≡ false
      → d.information_enabled ≡ true
      → held informs (emit_each events d) + (emit_each events d).omitted_transitions
        ≡ held informs d + d.omitted_transitions + total informs events
  unfolding emit_each
  emit_each-informs [] d h on = omega arith
  emit_each-informs (event ∷ events) d h on = omega (
    arith,
    informs-emit event d h on,
    emit_each-informs events (emit event d).1 (emit-closed event d ∙ h)
        (emit-information event d ∙ on),
  )

  -- From an open delivery with information on, empty queues and no omissions, whatever events are
  -- offered and whatever the capacities, the next drain accounts for as many transitions as were
  -- offered, one by one or in the event that reports a saturated presentation.
  pub drain_reports_transitions :
      (events : List (BackgroundEvent P)) (d : Delivery P) (final : Bool) (clock : ℕ → ℕ)
      → d.closed ≡ false
      → d.information_enabled ≡ true
      → d.warnings ≡ []
      → d.transitions ≡ []
      → d.omitted_transitions ≡ 0
      → total tells (take_outgoing final clock (emit_each events d)).0 ≡ total informs events
  drain_reports_transitions events d final clock h on w t z =
      let e : Delivery P = emit_each events d in
      omega (
        arith,
        emit_each-informs events d h on,
        total-take_outgoing informs tells (λ x. refl) (λ x. refl) final clock e,
        tells-aggregated P e.warning_counts,
        tells-saturation P e.omitted_transitions,
        ap (total (λ (r : QueuedEvent P). informs r.event)) w,
        ap (total (λ (r : QueuedEvent P). informs r.event)) t,
        z,
      )
