-- ===== src/Controller/Tickets.antt =====
-- The restart tickets of src/comfyui_docker_helper/container/runtime/controller.py: which of them
-- are open, and how each of them moves.
pub mod Calls
use comfyui_docker_helper.Prelude.{
  ℕ, is_some, not, ◌||◌, ◌&&◌, ◌+◌, ◌<◌, ◌≡◌, Bool, true, false, Option, none, some, List, [], ◌∷◌,
  arith, String, Option-cases, refl, inl, inr, Bool-cases, ◌==◌,
}
use comfyui_docker_helper.Controller.{
  TicketState, RestartResult, stopping_generation, is_restarting, in_phase, no_stopped_restart,
  no_shutdown_observed, terminal_result_required, starting_generation, shutdown_message,
  ControllerState, ControllerPhase, Controller, init, publish_at, publish, Outcome, returned,
  raised, stopping, finalizing, mark_delivery_complete,
}
use comfyui_docker_helper.Controller.Proposals.{
  withdraw_ticket, accept_ticket, reject_pending, observe_shutdown_deadline,
  clear_shutdown_deadline, submit_restart, withdraw_restart, accept_if_requested,
  begin_initial_admission, mark_initial_generation_running,
}
use comfyui_docker_helper.Controller.Results.{
  publish_result, publish_restart_terminal, and_return, finish_shutdown, interrupt_active,
  mark_external_shutdown, mark_generation_terminal, allocate_restart_successor,
  release_successful_restart, observe_external_signal, observe_runtime_failure,
}
use comfyui_docker_helper.Controller.Steps.{Call, step, run}
use comfyui_docker_helper.Controller.Invariant.{Inv, step-Inv}

-- The state that the active ticket shows while the result is none or some.
abbrev pub active_state : Option RestartResult → TicketState
active_state none = TicketState.accepted
active_state (some RestartResult.succeeded) = TicketState.succeeded
active_state (some RestartResult.failed) = TicketState.failed

-- The ticket at a position agrees with the slots that name it, and an open ticket is in a slot.
pub record Fits (c : Controller) (i : ℕ) : Type 0 where
  pub pending_made : c.pending_restart ≡ some i → i < c.next_ticket
  pub pending_open : c.pending_restart ≡ some i → (c.tickets i).state ≡ TicketState.pending
  pub active_made : c.active_restart ≡ some i → i < c.next_ticket
  pub active_shown :
      c.active_restart ≡ some i → (c.tickets i).state ≡ active_state c.active_terminal_result
  pub open_pending :
      i < c.next_ticket → (c.tickets i).state ≡ TicketState.pending → c.pending_restart ≡ some i
  pub open_active :
      i < c.next_ticket
      → (c.tickets i).state ≡ TicketState.accepted
      → (c.active_restart ≡ some i) × (c.active_terminal_result ≡ none)

pub init-Fits : (i : ℕ) → Fits init i
unfolding init
init-Fits i = ground arith

-- Where a ticket may go in one call: a pending one is accepted or rejected, an accepted one gets
-- its result, and any other stays.
abbrev pub may_become : TicketState → TicketState → Bool
may_become TicketState.pending TicketState.succeeded = false
may_become TicketState.pending TicketState.failed = false
may_become TicketState.pending _ = true
may_become TicketState.accepted TicketState.pending = false
may_become TicketState.accepted TicketState.rejected = false
may_become TicketState.accepted _ = true
may_become TicketState.succeeded TicketState.succeeded = true
may_become TicketState.failed TicketState.failed = true
may_become TicketState.rejected TicketState.rejected = true
may_become _ _ = false

may_become_refl : (s : TicketState) → may_become s s ≡ true
may_become_refl s = ground arith

-- One call from `c` to `d`: the ticket fits again, and it moved as it may.
pub record Tracks (c d : Controller) (i : ℕ) : Type 0 where
  pub fits : Fits d i
  pub moves : i < c.next_ticket → may_become (c.tickets i).state (d.tickets i).state ≡ true

withdraw_ticket-Tracks :
    (o : Option ℕ) (ticket : ℕ) (c : Controller) (i : ℕ)
    → o ≡ c.pending_restart
    → Inv c
    → Fits c i
    → Tracks c (withdraw_ticket o ticket c).1 i
unfolding withdraw_ticket publish_at publish
withdraw_ticket-Tracks none ticket c i e h f = ground arith
withdraw_ticket-Tracks (some held) ticket c i e h f = elim (Bool-cases (held == ticket)) [
  | inl same ↦ rw same (ground arith)
  | inr other ↦ rw other (ground arith)
]

accept_ticket-Tracks :
    (o : Option ℕ) (c : Controller) (i : ℕ)
    → o ≡ c.pending_restart
    → Inv c
    → Fits c i
    → Tracks c (accept_ticket o c).1 i
unfolding accept_ticket reject_pending publish_at publish
accept_ticket-Tracks none c i e h f = ground arith
accept_ticket-Tracks (some held) c i e h f = ground arith

reject_pending-Tracks :
    (message : String) (c : Controller) (i : ℕ)
    → Inv c
    → Fits c i
    → Tracks c (reject_pending message c) i
unfolding reject_pending publish_at publish
reject_pending-Tracks message c i h f = elim (Option-cases c.pending_restart) [
  | inl e ↦ rw (e, reject_pending) (ground arith)
  | inr (held, e) ↦ rw (e, reject_pending) (ground arith)
]

-- A controller with a pending ticket has no active one, also after the rejection.
reject_pending-idle :
    (message : String) (c : Controller)
    → Inv c
    → (held : ℕ) → c.pending_restart ≡ some held
    → (reject_pending message c).active_restart ≡ none
unfolding reject_pending
reject_pending-idle message c h held e = ground arith

reject_pending-none :
    (message : String) (c : Controller) → c.pending_restart ≡ none → reject_pending message c ≡ c
unfolding reject_pending
reject_pending-none message c e = rw e

interrupt_active-idle :
    (c : Controller) → c.active_restart ≡ none → interrupt_active c ≡ (returned tt, c)
unfolding interrupt_active
interrupt_active-idle c e = rw e

publish_result-Tracks :
    (r : RestartResult) (message : Option String) (t o : Option ℕ) (c : Controller) (i : ℕ)
    → t ≡ c.active_restart
    → Inv c
    → Fits c i
    → Tracks c (publish_result r message t o c).1 i
unfolding publish_result publish_at publish
publish_result-Tracks r message none o c i e h f = ground arith
publish_result-Tracks r message (some t) none c i e h f = ground arith
publish_result-Tracks r message (some t) (some o) c i e h f = ground arith

publish-Tracks :
    (r : RestartResult) (message : Option String) (c : Controller) (i : ℕ)
    → Inv c
    → Fits c i
    → Tracks c (publish_restart_terminal r message c).1 i
unfolding publish_restart_terminal
publish-Tracks r message c i h f =
    publish_result-Tracks _ _ c.active_restart c.operation c i refl h f
