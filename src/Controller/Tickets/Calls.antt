-- ===== src/Controller/Tickets/Calls.antt =====
-- Every call on the controller of src/comfyui_docker_helper/container/runtime/controller.py keeps the
-- tickets and the slots in step.
use comfyui_docker_helper.Prelude.{
  ℕ, is_some, not, ◌||◌, ◌&&◌, ◌+◌, Bool, Option, none, some, List, [], ◌∷◌, arith, String,
  Option-cases, refl, inl, inr, Bool-cases,
}
use comfyui_docker_helper.Controller.{
  RestartResult, stopping_generation, is_restarting, in_phase, no_stopped_restart,
  no_shutdown_observed, terminal_result_required, starting_generation, shutdown_message,
  ControllerState, ControllerPhase, Controller, Outcome, returned, raised, stopping, finalizing,
  mark_delivery_complete,
}
use comfyui_docker_helper.Controller.Proposals.{
  reject_pending, observe_shutdown_deadline, clear_shutdown_deadline, submit_restart,
  withdraw_restart, accept_if_requested, begin_initial_admission, mark_initial_generation_running,
}
use comfyui_docker_helper.Controller.Results.{
  publish_restart_terminal, and_return, finish_shutdown, interrupt_active, mark_external_shutdown,
  mark_generation_terminal, allocate_restart_successor, release_successful_restart,
  observe_external_signal, observe_runtime_failure,
}
use comfyui_docker_helper.Controller.Steps.{Call, step, run}
use comfyui_docker_helper.Controller.Invariant.{Inv, step-Inv}
use comfyui_docker_helper.Controller.Tickets.{
  Fits, may_become_refl, Tracks, withdraw_ticket-Tracks, accept_ticket-Tracks,
  reject_pending-Tracks, reject_pending-idle, reject_pending-none, interrupt_active-idle,
  publish-Tracks,
}

same-Tracks : (c : Controller) (i : ℕ) → Fits c i → Tracks c c i
same-Tracks c i f = record { fits = f; moves = λ _. may_become_refl (c.tickets i).state }

-- The state that a method leaves, whether it returns or raises, tracks `c`.
record Leaves {A : Type 0} (c : Controller) (i : ℕ) (p : Outcome A × Controller) : Type 0 where
  tracks : Tracks c p.1 i

module _ {A : Type 0} (c : Controller) (i : ℕ) where
  Leaves-and_return :
      (a : A) (p : Outcome Unit × Controller) → Leaves c i p → Leaves c i (and_return a p)
  Leaves-and_return a (returned u, d) t = record { tracks = t.tracks }
  Leaves-and_return a (raised e, d) t = record { tracks = t.tracks }

  Leaves-same : (r : Outcome A) → Fits c i → Leaves c i (r, c)
  Leaves-same r f = record { tracks = same-Tracks c i f }

  -- Only the generation, the phase and the state differ from a controller that tracks `c`.
  Leaves-moved :
      (r : Outcome A) (d : Controller) (n : ℕ) (g : Option ℕ) (s : ControllerState)
      (p : Option ControllerPhase)
      → Tracks c d i
      → Leaves c i (r, record d { generation_counter = n; generation = g; state = s; phase = p })
  Leaves-moved r d n g s p t = record { tracks = record { fits = ground arith; moves = t.moves } }

Leaves-publish :
    (r : RestartResult) (message : Option String) (c : Controller) (i : ℕ)
    → Inv c
    → Fits c i
    → Leaves c i (publish_restart_terminal r message c)
Leaves-publish r message c i h f = record { tracks = publish-Tracks r message c i h f }

-- Whether a restart stands between its two generations.
abbrev no_successor_due : Controller → Bool
no_successor_due c =
    not (is_restarting c.state)
    || not (in_phase c.phase stopping_generation)
    || not (is_some c.active_restart)

allocate-Leaves :
    (c : Controller) (i : ℕ) → Inv c → Fits c i → Leaves c i (allocate_restart_successor c)
unfolding allocate_restart_successor
allocate-Leaves c i h f = elim (Bool-cases (no_successor_due c)) [
  | inl e ↦ rw (e, allocate_restart_successor) (Leaves-same c i (raised no_stopped_restart) f)
  | inr e ↦
      rw (e, allocate_restart_successor)
        (elim (Bool-cases (is_some c.external_signal)) [
          | inl x ↦ rw x (Leaves-and_return c i none _ (Leaves-publish _ _ c i h f))
          | inr x ↦ rw x (elim (Bool-cases (is_some c.runtime_failure)) [
            | inl y ↦ rw y (Leaves-and_return c i none _ (Leaves-publish _ _ c i h f))
            | inr y ↦ rw y (
                Leaves-moved c i (returned (some (c.generation_counter + 1))) c
                  (c.generation_counter + 1) (some (c.generation_counter + 1)) c.state
                  (some starting_generation) (same-Tracks c i f))
          ])
        ])
]

finish_shutdown-Leaves :
    (c : Controller) (i : ℕ) (p : Outcome Unit × Controller)
    → Leaves c i p
    → Leaves c i (finish_shutdown p)
finish_shutdown-Leaves c i (returned u, d) t =
    Leaves-moved c i (returned tt) d d.generation_counter d.generation stopping (some finalizing)
      t.tracks
finish_shutdown-Leaves c i (raised e, d) t = record { tracks = t.tracks }

interrupt_active-Leaves :
    (c : Controller) (i : ℕ) → Inv c → Fits c i → Leaves c i (interrupt_active c)
unfolding interrupt_active
interrupt_active-Leaves c i h f =
    elim (Bool-cases (is_some c.active_restart && not (is_some c.active_terminal_result))) [
      | inl e ↦ rw (e, interrupt_active) (Leaves-publish _ _ c i h f)
      | inr e ↦ rw (e, interrupt_active) (Leaves-same c i (returned tt) f)
    ]

interrupt_rejected-Leaves :
    (message : String) (c : Controller) (i : ℕ)
    → Inv c
    → Fits c i
    → Leaves c i (interrupt_active (reject_pending message c))
interrupt_rejected-Leaves message c i h f = elim (Option-cases c.pending_restart) [
  | inl e ↦ rw (reject_pending-none message c e) (interrupt_active-Leaves c i h f)
  | inr (held, e) ↦
      rw (interrupt_active-idle (reject_pending message c) (reject_pending-idle message c h held e))
        (record { tracks = reject_pending-Tracks message c i h f })
]

mark_external_shutdown-Leaves :
    (c : Controller) (i : ℕ) → Inv c → Fits c i → Leaves c i (mark_external_shutdown c)
unfolding mark_external_shutdown
mark_external_shutdown-Leaves c i h f = elim (Bool-cases (is_some c.external_signal)) [
  | inl e ↦
      rw (e, mark_external_shutdown)
        (finish_shutdown-Leaves c i _ (interrupt_rejected-Leaves shutdown_message c i h f))
  | inr e ↦ rw (e, mark_external_shutdown) (Leaves-same c i (raised no_shutdown_observed) f)
]

mark_generation_terminal-Leaves :
    (message : String) (c : Controller) (i : ℕ)
    → Inv c
    → Fits c i
    → Leaves c i (mark_generation_terminal message c)
unfolding mark_generation_terminal
mark_generation_terminal-Leaves message c i h f =
    elim (Bool-cases (is_some c.active_restart || is_some c.active_terminal_result)) [
      | inl e ↦
          rw (e, mark_generation_terminal) (Leaves-same c i (raised terminal_result_required) f)
      | inr e ↦
          rw (e, mark_generation_terminal)
            (let d : Controller = reject_pending message c in
              Leaves-moved c i (returned tt) d d.generation_counter d.generation stopping
                (some finalizing) (reject_pending-Tracks message c i h f))
    ]

-- Every call keeps the tickets and the slots in step, and moves each ticket as it may.
pub step-Tracks :
    (c : Controller) (call : Call) (i : ℕ) → Inv c → Fits c i → Tracks c (step c call) i
unfolding step observe_shutdown_deadline clear_shutdown_deadline submit_restart withdraw_restart
    accept_if_requested begin_initial_admission mark_initial_generation_running
    release_successful_restart observe_external_signal observe_runtime_failure
    mark_delivery_complete
step-Tracks c (Call.observes_deadline d) i h f = ground arith
step-Tracks c (Call.withdraws ticket) i h f =
    withdraw_ticket-Tracks c.pending_restart ticket c i refl h f
step-Tracks c Call.accepts i h f = accept_ticket-Tracks c.pending_restart c i refl h f
step-Tracks c Call.allocates i h f = (allocate-Leaves c i h f).tracks
step-Tracks c (Call.publishes r message) i h f = publish-Tracks r message c i h f
step-Tracks c (Call.marks_terminal message) i h f =
    (mark_generation_terminal-Leaves message c i h f).tracks
step-Tracks c Call.marks_shutdown i h f = (mark_external_shutdown-Leaves c i h f).tracks
step-Tracks c _ i h f = ground arith

pub run-Fits :
    (c : Controller) (calls : List Call) (i : ℕ) → Inv c → Fits c i → Fits (run c calls) i
unfolding run
run-Fits c [] i h f = f
run-Fits c (call ∷ calls) i h f =
    run-Fits (step c call) calls i (step-Inv c call h) (step-Tracks c call i h f).fits
