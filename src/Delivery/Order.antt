-- ===== src/Delivery/Order.antt =====
-- The order in which src/comfyui_docker_helper/container/runtime/event_delivery.py hands on what it
-- kept: warnings and transitions wait in two queues and leave in the order of the calls.
use comfyui_docker_helper.Prelude.{
  ◌+◌, ◌≡◌, refl, sym, ◌∙◌, inl, inr, ap, Bool, true, false, not, is_some, List, [], ◌∷◌, ◌++◌, map,
  length, filter, filter-append, arith, ◌==◌, ltb, if◌then◌else◌, Bool-cases, append-nil,
  length-append, Option, none, some,
}
use comfyui_docker_helper.Delivery.{
  BackgroundEvent, QueuedEvent, Delivery, warning_category, is_progress, emit, offer, offer_warning,
  offer_transition, queued, WarningCategory,
}
use comfyui_docker_helper.Delivery.Drain.{retained}
use comfyui_docker_helper.Delivery.Sorting.{Numbered, Numbered-append, sort-filter}

module _ {P : Type 0} where
  abbrev is_warning : QueuedEvent P → Bool
  is_warning q = is_some (warning_category q.event)

  -- The two queues are the two parts of one numbered log.
  record Logged (log : List (QueuedEvent P)) (d : Delivery P) : Type 0 where
    numbered : Numbered 0 log
    counted : d.next_sequence ≡ length log
    warnings_kept : d.warnings ≡ filter is_warning log
    transitions_kept : d.transitions ≡ filter (λ q. not (is_warning q)) log

  retained-Logged : (log : List (QueuedEvent P)) (d : Delivery P) → Logged log d → retained d ≡ log
  unfolding retained
  retained-Logged log d h =
      rw (h.warnings_kept, h.transitions_kept) (sort-filter is_warning 0 log h.numbered)

  -- The events that a run of `emit` queued, found by the counter of the queue.
  unfoldable pub accepted : List (BackgroundEvent P) → Delivery P → List (BackgroundEvent P)
  accepted [] d = []
  accepted (event ∷ events) d =
      let later = accepted events (emit event d).1 in
      if (emit event d).1.next_sequence == d.next_sequence then later else event ∷ later

  unfoldable pub emit_each : List (BackgroundEvent P) → Delivery P → Delivery P
  emit_each [] d = d
  emit_each (event ∷ events) d = emit_each events (emit event d).1

  -- What `emit` does to the queues: nothing, one more warning, or one more transition.
  pub data Emitted (event : BackgroundEvent P) (d e : Delivery P) : Type 0 where
    kept :
        e.next_sequence ≡ d.next_sequence
        → e.warnings ≡ d.warnings
        → e.transitions ≡ d.transitions
        → Emitted event d e
    warned :
        is_some (warning_category event) ≡ true
        → e.next_sequence ≡ d.next_sequence + 1
        → e.warnings ≡ d.warnings ++ queued d event ∷ []
        → e.transitions ≡ d.transitions
        → Emitted event d e
    moved :
        is_some (warning_category event) ≡ false
        → e.next_sequence ≡ d.next_sequence + 1
        → e.warnings ≡ d.warnings
        → e.transitions ≡ d.transitions ++ queued d event ∷ []
        → Emitted event d e

  offer-Emitted :
      (c : Option WarningCategory) (event : BackgroundEvent P) (d : Delivery P)
      → c ≡ warning_category event
      → Emitted event d (offer c event d).1
  unfolding offer offer_warning offer_transition
  offer-Emitted (some c) event d e =
      elim (Bool-cases (ltb (length d.warnings) d.warning_capacity)) [
        | inl room ↦ rw room (warned (ground arith) refl refl refl)
        | inr full ↦ rw full (kept refl refl refl)
      ]
  offer-Emitted none event d e = elim (Bool-cases d.information_enabled) [
    | inr off ↦ rw off (kept refl refl refl)
    | inl on ↦ rw on (elim (Bool-cases (ltb (length d.transitions) d.transition_capacity)) [
      | inl room ↦ rw room (moved (ground arith) refl refl refl)
      | inr full ↦ rw full (kept refl refl refl)
    ])
  ]

  pub emit-Emitted : (event : BackgroundEvent P) (d : Delivery P) → Emitted event d (emit event d).1
  unfolding emit
  emit-Emitted event d = elim (Bool-cases (is_progress event)) [
    | inl p ↦ rw p (kept refl refl refl)
    | inr q ↦ rw q (elim (Bool-cases d.closed) [
      | inl c ↦ simp c (kept refl refl refl)
      | inr c ↦ simp c (offer-Emitted (warning_category event) event d refl)
    ])
  ]

  Logged-append :
      (log : List (QueuedEvent P)) (event : BackgroundEvent P) (d e : Delivery P)
      → Logged log d
      → e.next_sequence ≡ d.next_sequence + 1
      → e.warnings ≡ d.warnings ++ filter is_warning (queued d event ∷ [])
      → e.transitions ≡ d.transitions ++ filter (λ q. not (is_warning q)) (queued d event ∷ [])
      → Logged (log ++ queued d event ∷ []) e
  Logged-append log event d e h n w t = record {
    numbered = Numbered-append 0 log (queued d event) h.numbered (omega (arith, h.counted));
    counted = omega (arith, h.counted, length-append log (queued d event ∷ []));
    warnings_kept = rw (w, h.warnings_kept, filter-append);
    transitions_kept = rw (t, h.transitions_kept, filter-append);
  }

  -- The log after a call that did this.
  log_of : {event : BackgroundEvent P} {d e : Delivery P} → Emitted event d e → List (QueuedEvent P)
  log_of (kept n w t) = []
  log_of {event} {d} (warned c n w t) = queued d event ∷ []
  log_of {event} {d} (moved c n w t) = queued d event ∷ []

  Emitted-Logged :
      (log : List (QueuedEvent P)) {event : BackgroundEvent P} {d e : Delivery P}
      (m : Emitted event d e)
      → Logged log d
      → Logged (log ++ log_of m) e
  unfolding log_of
  Emitted-Logged log {d} {e} (kept n w t) h = record {
    numbered = rw append-nil h.numbered;
    counted = rw append-nil (n ∙ h.counted);
    warnings_kept = rw append-nil (w ∙ h.warnings_kept);
    transitions_kept = rw append-nil (t ∙ h.transitions_kept);
  }
  Emitted-Logged log {event} {d} {e} (warned c n w t) h =
      Logged-append log event d e h n (rw c w) (rw c (t ∙ sym (append-nil _)))
  Emitted-Logged log {event} {d} {e} (moved c n w t) h =
      Logged-append log event d e h n (rw c (w ∙ sym (append-nil _))) (rw c t)

  accepted-cons :
      (event : BackgroundEvent P) (events : List (BackgroundEvent P)) (d : Delivery P)
      (m : Emitted event d (emit event d).1)
      → accepted (event ∷ events) d
        ≡ map (λ q. q.event) (log_of m) ++ accepted events (emit event d).1
  unfolding accepted log_of
  accepted-cons event events d (kept n w t) = ground arith
  accepted-cons event events d (warned c n w t) = ground arith
  accepted-cons event events d (moved c n w t) = ground arith

  map_regroup :
      (log more : List (QueuedEvent P)) (events : List (BackgroundEvent P))
      → map (λ q. q.event) (log ++ more) ++ events
        ≡ map (λ q. q.event) log ++ (map (λ q. q.event) more ++ events)
  map_regroup [] more events = refl
  map_regroup (q ∷ log) more events = ap (λ l. q.event ∷ l) (map_regroup log more events)

  emit_each-Logged :
      (events : List (BackgroundEvent P)) (log : List (QueuedEvent P)) (d : Delivery P)
      → Logged log d
      → map (λ q. q.event) (retained (emit_each events d))
        ≡ map (λ q. q.event) log ++ accepted events d
  unfolding emit_each accepted
  emit_each-Logged [] log d h =
      ap (map (λ q. q.event)) (retained-Logged log d h) ∙ sym (append-nil _)
  emit_each-Logged (event ∷ events) log d h =
      let m : Emitted event d (emit event d).1 = emit-Emitted event d in
      emit_each-Logged events (log ++ log_of m) (emit event d).1 (Emitted-Logged log m h)
      ∙ map_regroup log (log_of m) (accepted events (emit event d).1)
      ∙ ap (λ l. map (λ q. q.event) log ++ l) (sym (accepted-cons event events d m))

  -- From empty queues, whatever events are offered and however the two queues fill, a drain hands
  -- on exactly the events that `emit` queued, warnings and transitions mixed in the order of the
  -- calls.
  pub drain_keeps_order :
      (events : List (BackgroundEvent P)) (d : Delivery P)
      → d.warnings ≡ []
      → d.transitions ≡ []
      → d.next_sequence ≡ 0
      → map (λ q. q.event) (retained (emit_each events d)) ≡ accepted events d
  drain_keeps_order events d w t n =
      emit_each-Logged events [] d
        (record { numbered = tt; counted = n; warnings_kept = w; transitions_kept = t })
