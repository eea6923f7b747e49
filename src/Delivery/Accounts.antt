-- ===== src/Delivery/Accounts.antt =====
-- No event that is offered to src/comfyui_docker_helper/container/runtime/event_delivery.py vanishes:
-- what the queues have no room for is counted, and a drain reports both.
use comfyui_docker_helper.Prelude.{
  ℕ, ◌+◌, ◌≡◌, refl, ◌∙◌, inl, inr, ap, Bool, false, Option, none, some, List, [], ◌∷◌, ◌++◌, map,
  total, total-append, total-snoc, arith, if◌then◌else◌, Bool-cases, ltb, length, is_some, ◌||◌,
}
use comfyui_docker_helper.Delivery.{
  WarningCategory, stale_cleanup, BackgroundEvent, RuntimeEvent, background, warnings_aggregated,
  presentation_saturated, QueuedEvent, Delivery, queued, count_warning, warning_category,
  is_progress, same_category, emit, offer, offer_warning, offer_transition, ProgressSlot,
  progress_state, item_progress, ProgressState, ItemProgress,
}
use comfyui_docker_helper.Delivery.Drain.{
  insert_queued, sort_queued, retained, aggregated, saturation, progress_events, take_outgoing,
  settle, progress_line,
}
use comfyui_docker_helper.Delivery.Order.{emit_each}

-- One for a warning of the category, none for any other event.
abbrev pub counts_for : WarningCategory → Option WarningCategory → ℕ
counts_for c none = 0
counts_for c (some d) = if same_category c d then 1 else 0

module _ {P : Type 0} where
  abbrev pub warns : WarningCategory → BackgroundEvent P → ℕ
  warns c event = counts_for c (warning_category event)

  -- One for a transition, none for a warning or for progress.
  abbrev pub informs : BackgroundEvent P → ℕ
  informs event = if is_progress event then 0 else if is_some (warning_category event) then 0 else 1

  -- What an event of a drain reports of a category, and of transitions.
  abbrev pub reports : WarningCategory → RuntimeEvent P → ℕ
  reports c (background event) = warns c event
  reports c (warnings_aggregated d n) = if same_category c d then n else 0
  reports c (presentation_saturated n) = 0

  abbrev pub tells : RuntimeEvent P → ℕ
  tells (background event) = informs event
  tells (warnings_aggregated d n) = 0
  tells (presentation_saturated n) = n

  module _ (w : BackgroundEvent P → ℕ) (v : RuntimeEvent P → ℕ)
      (agree : (e : BackgroundEvent P) → v (background e) ≡ w e) where
    total-insert_queued :
        (q : QueuedEvent P) (l : List (QueuedEvent P))
        → total (λ r. w r.event) (insert_queued q l) ≡ w q.event + total (λ r. w r.event) l
    unfolding insert_queued
    total-insert_queued q [] = refl
    total-insert_queued q (r ∷ rest) = ground (arith, total-insert_queued q rest)

    total-sort_queued :
        (l : List (QueuedEvent P))
        → total (λ r. w r.event) (sort_queued l) ≡ total (λ r. w r.event) l
    unfolding sort_queued
    total-sort_queued [] = refl
    total-sort_queued (q ∷ rest) =
        omega (arith, total-insert_queued q (sort_queued rest), total-sort_queued rest)

    total-map-background :
        (l : List (QueuedEvent P))
        → total v (map (λ q. background q.event) l) ≡ total (λ r. w r.event) l
    total-map-background [] = refl
    total-map-background (q ∷ rest) = omega (arith, agree q.event, total-map-background rest)

    module _ (weightless : (p : ItemProgress P) → w (item_progress p) ≡ 0) where
      total-progress_line :
          (latest : ItemProgress P) (o : Option ProgressState)
          → total v (progress_line latest o) ≡ 0
      total-progress_line latest none = refl
      total-progress_line latest (some state) = omega (
        arith,
        agree (item_progress (record latest { state = state })),
        weightless (record latest { state = state }),
      )

      total-progress_events :
          (final : Bool) (clock : ℕ → ℕ) (slots : List (ℕ × ProgressSlot P))
          → total v (progress_events final clock slots) ≡ 0
      unfolding progress_events
      total-progress_events final clock [] = refl
      total-progress_events final clock ((scope, slot) ∷ rest) =
          let state = progress_state (settle final (clock scope) slot).0 in
          total-append v (progress_line slot.latest state) (progress_events final clock rest)
          ∙ omega
              (arith, total-progress_line slot.latest state, total-progress_events final clock rest)

      -- A drain reports what the queues hold, and what the counters hold.
      pub total-take_outgoing :
          (final : Bool) (clock : ℕ → ℕ) (d : Delivery P)
          → total v (take_outgoing final clock d).0
            ≡ (total (λ r. w r.event) d.warnings + total (λ r. w r.event) d.transitions)
              + (total v (aggregated d.warning_counts) + total v (saturation d.omitted_transitions))
      unfolding take_outgoing retained
      total-take_outgoing final clock d =
          let kept : List (RuntimeEvent P) =
            map (λ q. background q.event) (sort_queued (d.warnings ++ d.transitions)) in
          let lines = progress_events (final || d.closed) clock d.progress in
          let rest = aggregated d.warning_counts ++ (saturation d.omitted_transitions ++ lines) in
          let first : total v (take_outgoing final clock d).0 ≡ total v kept + total v rest =
            total-append v kept rest in
          omega (
            arith,
            first,
            total-append v (aggregated {P = P} d.warning_counts)
                (saturation d.omitted_transitions ++ lines),
            total-append v (saturation {P = P} d.omitted_transitions) lines,
            total-progress_events (final || d.closed) clock d.progress,
            total-map-background (sort_queued (d.warnings ++ d.transitions)),
            total-sort_queued (d.warnings ++ d.transitions),
            total-append (λ r. w r.event) d.warnings d.transitions,
          )

reports-aggregated :
    (P : Type 0) (c : WarningCategory) (counts : WarningCategory → ℕ)
    → total (reports c) (aggregated {P = P} counts) ≡ counts c
unfolding aggregated
reports-aggregated P stale_cleanup counts = ground arith
reports-aggregated P _ counts = ground arith

pub tells-aggregated :
    (P : Type 0) (counts : WarningCategory → ℕ) → total tells (aggregated {P = P} counts) ≡ 0
unfolding aggregated
tells-aggregated P counts = ground arith

reports-saturation :
    (P : Type 0) (c : WarningCategory) (n : ℕ) → total (reports c) (saturation {P = P} n) ≡ 0
unfolding saturation
reports-saturation P c n = ground arith

pub tells-saturation : (P : Type 0) (n : ℕ) → total tells (saturation {P = P} n) ≡ n
unfolding saturation
tells-saturation P n = ground arith

module _ {P : Type 0} where
  abbrev pub held : (BackgroundEvent P → ℕ) → Delivery P → ℕ
  held w d = total (λ r. w r.event) d.warnings + total (λ r. w r.event) d.transitions

  offer-warns :
      (o : Option WarningCategory) (c : WarningCategory) (event : BackgroundEvent P)
      (d : Delivery P)
      → o ≡ warning_category event
      → held (warns c) (offer o event d).1 + (offer o event d).1.warning_counts c
        ≡ held (warns c) d + d.warning_counts c + counts_for c o
  unfolding offer offer_warning offer_transition
  offer-warns (some k) c event d e =
      let moved = total-snoc (λ r. warns c r.event) d.warnings (queued d event) in
      elim (Bool-cases (ltb (length d.warnings) d.warning_capacity)) [
        | inl room ↦ rw room (omega (arith, moved, ap (counts_for c) e))
        | inr full ↦ rw full (count k c)
      ]
    where
      count :
          (k c : WarningCategory)
          → held (warns c) d + count_warning k d.warning_counts c
            ≡ held (warns c) d + d.warning_counts c + counts_for c (some k)
      count k c = ground arith
  offer-warns none c event d e =
      let moved = total-snoc (λ r. warns c r.event) d.transitions (queued d event) in
      elim (Bool-cases d.information_enabled) [
        | inr off ↦ simp off (omega arith)
        | inl on ↦ simp on (elim (Bool-cases (ltb (length d.transitions) d.transition_capacity)) [
          | inl room ↦ rw room (omega (arith, moved, ap (counts_for c) e))
          | inr full ↦ rw full (omega arith)
        ])
      ]

  -- An open delivery books every warning: it is queued, or its category's counter moves.
  warns-emit :
      (c : WarningCategory) (event : BackgroundEvent P) (d : Delivery P)
      → d.closed ≡ false
      → held (warns c) (emit event d).1 + (emit event d).1.warning_counts c
        ≡ held (warns c) d + d.warning_counts c + warns c event
  unfolding emit
  warns-emit c (item_progress p) d h = omega arith
  warns-emit c event d h = simp h (offer-warns (warning_category event) c event d refl)

  pub emit-closed :
      (event : BackgroundEvent P) (d : Delivery P) → (emit event d).1.closed ≡ d.closed
  unfolding emit offer offer_warning offer_transition
  emit-closed (item_progress p) d = refl
  emit-closed _ d = ground arith

  emit_each-warns :
      (c : WarningCategory) (events : List (BackgroundEvent P)) (d : Delivery P)
      → d.closed ≡ false
      → held (warns c) (emit_each events d) + (emit_each events d).warning_counts c
        ≡ held (warns c) d + d.warning_counts c + total (warns c) events
  unfolding emit_each
  emit_each-warns c [] d h = omega arith
  emit_each-warns c (event ∷ events) d h = omega (
    arith,
    warns-emit c event d h,
    emit_each-warns c events (emit event d).1 (emit-closed event d ∙ h),
  )

  -- From an open delivery with empty queues and counters, whatever events are offered and whatever
  -- the capacities, the next drain reports as many warnings of each category as were offered, one by
  -- one or in the category's aggregate.
  pub drain_reports_warnings :
      (c : WarningCategory) (events : List (BackgroundEvent P)) (d : Delivery P) (final : Bool)
      (clock : ℕ → ℕ)
      → d.closed ≡ false
      → d.warnings ≡ []
      → d.transitions ≡ []
      → d.warning_counts c ≡ 0
      → total (reports c) (take_outgoing final clock (emit_each events d)).0
        ≡ total (warns c) events
  drain_reports_warnings c events d final clock h w t z =
      let e : Delivery P = emit_each events d in
      omega (
        arith,
        emit_each-warns c events d h,
        total-take_outgoing (warns c) (reports c) (λ x. refl) (λ x. refl) final clock e,
        reports-aggregated P c e.warning_counts,
        reports-saturation P c e.omitted_transitions,
        ap (total (λ (r : QueuedEvent P). warns c r.event)) w,
        ap (total (λ (r : QueuedEvent P). warns c r.event)) t,
        z,
      )
