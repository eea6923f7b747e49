-- ===== src/Delivery/Examples.antt =====
-- A small run of src/comfyui_docker_helper/container/runtime/event_delivery.py.
use comfyui_docker_helper.Prelude.{
  ℕ, ◌≡◌, refl, true, false, none, some, ◌==◌, List, [], ◌∷◌, map, total, arith,
}
use comfyui_docker_helper.Delivery.{
  ssh, BackgroundEvent, reconciled, ssh_warning, item_completed, RuntimeEvent, background,
  presentation_saturated, Delivery,
}
use comfyui_docker_helper.Delivery.Drain.{retained, take_outgoing, Sink, emit_latched, emit_all}
use comfyui_docker_helper.Delivery.Order.{emit_each, accepted, drain_keeps_order}
use comfyui_docker_helper.Delivery.Accounts.{reports, warns, informs, tells, drain_reports_warnings}
use comfyui_docker_helper.Delivery.Transitions.{drain_reports_transitions}
use comfyui_docker_helper.Delivery.Bounds.{InBounds, emits, drains, run, run-InBounds}
use comfyui_docker_helper.Delivery.Emission.{Delivered, emit_all-Delivered}

-- Two transitions and one warning fit.
abbrev small : Delivery ℕ
small = record {
  transition_capacity = 2;
  warning_capacity = 1;
  progress_capacity = 1;
  information_enabled = true;
  progress_enabled = true;
  transitions = [];
  warnings = [];
  warning_counts = λ _. 0;
  progress = [];
  omitted_transitions = 0;
  next_sequence = 0;
  closed = false;
  close_deadline = none;
}

abbrev offered : List (BackgroundEvent ℕ)
offered = reconciled 1 ∷ ssh_warning 2 ∷ ssh_warning 3 ∷ item_completed 4 ∷ item_completed 5 ∷ []

drain_keeps_order_example :
    map (λ q. q.event) (retained (emit_each offered small)) ≡ accepted offered small
drain_keeps_order_example = drain_keeps_order offered small refl refl refl

drain_reports_warnings_example :
    total (reports ssh) (take_outgoing false (λ _. 0) (emit_each offered small)).0
    ≡ total (warns ssh) offered
drain_reports_warnings_example =
    drain_reports_warnings ssh offered small false (λ _. 0) refl refl refl refl

drain_reports_transitions_example :
    total tells (take_outgoing false (λ _. 0) (emit_each offered small)).0 ≡ total informs offered
drain_reports_transitions_example =
    drain_reports_transitions offered small false (λ _. 0) refl refl refl refl refl

run-InBounds_example : InBounds (run small (emits (reconciled 1) ∷ drains false (λ _. 0) ∷ []))
run-InBounds_example =
    run-InBounds small (emits (reconciled 1) ∷ drains false (λ _. 0) ∷ []) (omega arith)

abbrev sink : Sink ℕ
sink = record { received = []; has_failed = false }

abbrev outgoing : List (RuntimeEvent ℕ)
outgoing = background (reconciled 1) ∷ presentation_saturated 2 ∷ []

-- A close whose deadline is over at the second event.
emit_all-Delivered_example :
    Delivered
      (λ _. false)
      (some 9)
      (λ n. n == 1)
      0
      outgoing
      sink.received
      (emit_all (λ _. false) (some 9) (λ n. n == 1) 0 outgoing sink)
emit_all-Delivered_example =
    emit_all-Delivered (λ _. false) (some 9) (λ n. n == 1) 0 outgoing sink refl

first_arrives :
    (emit_all (λ _. false) (some 9) (λ n. n == 1) 0 outgoing sink).received
    ≡ background (reconciled 1) ∷ []
unfolding emit_all emit_latched
first_arrives = refl
