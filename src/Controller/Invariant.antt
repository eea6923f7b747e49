-- ===== src/Controller/Invariant.antt =====
-- What holds of a controller between two calls
-- (src/comfyui_docker_helper/container/runtime/controller.py).
use comfyui_docker_helper.Prelude.{
  ℕ, ◌≤◌, ◌≡◌, ◌⊎◌, true, Option, none, some, List, [], ◌∷◌, arith, is_some,
}
use comfyui_docker_helper.Controller.{
  RestartResult, starting, running, restarting, stopping, admitting, stopping_generation,
  starting_generation, finalizing, Controller, init, mark_delivery_complete,
}
use comfyui_docker_helper.Controller.Proposals.{
  observe_shutdown_deadline, clear_shutdown_deadline, submit_restart, withdraw_restart,
  withdraw_ticket, accept_if_requested, accept_ticket, reject_pending, begin_initial_admission,
  mark_initial_generation_running,
}
use comfyui_docker_helper.Controller.Results.{
  allocate_restart_successor, publish_restart_terminal, publish_result, release_successful_restart,
  mark_generation_terminal, observe_external_signal, mark_external_shutdown, interrupt_active,
  observe_runtime_failure,
}
use comfyui_docker_helper.Controller.Steps.{Call, step, run}

-- A value is some number of at most `bound`.
abbrev pub AtMost : Option ℕ → ℕ → Type 0
AtMost none bound = Unit
AtMost (some n) bound = n ≤ bound

pub record Inv (c : Controller) : Type 0 where
  pub pending_wakes : is_some c.pending_restart ≡ true → c.restart_wakeup ≡ true
  pub pending_running : is_some c.pending_restart ≡ true → c.state ≡ running
  pub starting_idle : c.state ≡ starting → c.active_restart ≡ none
  pub starting_admits : c.state ≡ starting → c.phase ≡ some admitting
  pub running_idle : c.state ≡ running → c.active_restart ≡ none
  pub running_phase : c.state ≡ running → c.phase ≡ none
  pub restarting_active : c.state ≡ restarting → is_some c.active_restart ≡ true
  pub stopping_finalizes : c.state ≡ stopping → c.phase ≡ some finalizing
  pub active_named : is_some c.active_restart ≡ is_some c.operation
  pub operation_counted : AtMost c.operation c.operation_counter
  pub generation_counted : AtMost c.generation c.generation_counter
  pub result_active : is_some c.active_terminal_result ≡ true → is_some c.active_restart ≡ true
  pub open_restarting :
      is_some c.active_restart ≡ true → c.active_terminal_result ≡ none → c.state ≡ restarting
  pub open_phase :
      c.state ≡ restarting
      → c.active_terminal_result ≡ none
      → (c.phase ≡ some stopping_generation) ⊎ (c.phase ≡ some starting_generation)
  pub result_finalizes : is_some c.active_terminal_result ≡ true → c.phase ≡ some finalizing
  pub failure_stops : c.active_terminal_result ≡ some RestartResult.failed → c.state ≡ stopping

pub init-Inv : Inv init
unfolding init
init-Inv = ground arith

pub step-Inv : (c : Controller) (call : Call) → Inv c → Inv (step c call)
unfolding step observe_shutdown_deadline clear_shutdown_deadline submit_restart withdraw_restart
    withdraw_ticket accept_if_requested accept_ticket reject_pending begin_initial_admission
    mark_initial_generation_running allocate_restart_successor publish_restart_terminal
    publish_result release_successful_restart mark_generation_terminal observe_external_signal
    mark_external_shutdown interrupt_active observe_runtime_failure mark_delivery_complete
step-Inv c (Call.observes_deadline d) h = ground arith
step-Inv c _ h = ground arith

-- After any calls, in any order, the invariant holds.
pub run-Inv : (c : Controller) (calls : List Call) → Inv c → Inv (run c calls)
unfolding run
run-Inv c [] h = h
run-Inv c (call ∷ calls) h = run-Inv (step c call) calls (step-Inv c call h)
