-- ===== src/Controller/Failures.antt =====
-- What a failure of the runtime means for the restarts that follow
-- (src/comfyui_docker_helper/container/runtime/controller.py).
use comfyui_docker_helper.Prelude.{ℕ, String, ◌≡◌, refl, some, List, [], ◌∷◌, arith, ◌∙◌}
use comfyui_docker_helper.Controller.{
  TicketState, RestartResult, Controller, publish, publish_at, mark_delivery_complete,
}
use comfyui_docker_helper.Controller.Proposals.{
  withdraw_ticket, accept_ticket, reject_pending, observe_shutdown_deadline,
  clear_shutdown_deadline, submit_restart, withdraw_restart, accept_if_requested,
  begin_initial_admission, mark_initial_generation_running,
}
use comfyui_docker_helper.Controller.Results.{
  publish_result, publish_restart_terminal, interrupt_active, mark_external_shutdown,
  mark_generation_terminal, allocate_restart_successor, release_successful_restart,
  observe_external_signal, observe_runtime_failure,
}
use comfyui_docker_helper.Controller.Steps.{Call, step, run}

-- What a failure of the runtime freezes.
pub record FailureHolds (message : String) (c d : Controller) : Type 0 where
  pub failure : d.runtime_failure ≡ some message
  pub operations : d.operation_counter ≡ c.operation_counter
  pub generations : d.generation_counter ≡ c.generation_counter
  pub tickets : d.next_ticket ≡ c.next_ticket
  pub last_success :
      (o : ℕ)
      → d.last_restart ≡ some (record { id = o; result = RestartResult.succeeded })
      → c.last_restart ≡ some (record { id = o; result = RestartResult.succeeded })
  pub success :
      (i : ℕ)
      → (d.tickets i).state ≡ TicketState.succeeded
      → (c.tickets i).state ≡ TicketState.succeeded

step-FailureHolds :
    (message : String) (c : Controller) (call : Call)
    → c.runtime_failure ≡ some message
    → FailureHolds message c (step c call)
unfolding step observe_shutdown_deadline clear_shutdown_deadline submit_restart withdraw_restart
    withdraw_ticket accept_if_requested accept_ticket reject_pending begin_initial_admission
    mark_initial_generation_running allocate_restart_successor publish_restart_terminal
    publish_result release_successful_restart mark_generation_terminal observe_external_signal
    mark_external_shutdown interrupt_active observe_runtime_failure mark_delivery_complete
    publish_at publish
step-FailureHolds message c (Call.observes_deadline d) h = record {
  failure = ground arith;
  operations = ground arith;
  generations = ground arith;
  tickets = ground arith;
  last_success = λ o e. ground (arith, e);
  success = λ i e. ground (arith, e);
}
step-FailureHolds message c _ h = record {
  failure = ground arith;
  operations = ground arith;
  generations = ground arith;
  tickets = ground arith;
  last_success = λ o e. ground (arith, e);
  success = λ i e. ground (arith, e);
}

-- Once the runtime has failed it stays so, with the same message, and no later calls make a ticket, accept
-- a restart, allocate a generation or let a restart succeed: a ticket that has succeeded, or a last
-- restart that is reported as a success, was so before.
pub failure_holds :
    (message : String) (c : Controller) (calls : List Call)
    → c.runtime_failure ≡ some message
    → FailureHolds message c (run c calls)
unfolding run
failure_holds message c [] h = record {
  failure = h;
  operations = refl;
  generations = refl;
  tickets = refl;
  last_success = λ o e. e;
  success = λ i e. e;
}
failure_holds message c (call ∷ calls) h =
    let one = step-FailureHolds message c call h in
    let rest = failure_holds message (step c call) calls one.failure in
    record {
      failure = rest.failure;
      operations = rest.operations ∙ one.operations;
      generations = rest.generations ∙ one.generations;
      tickets = rest.tickets ∙ one.tickets;
      last_success = λ o e. one.last_success o (rest.last_success o e);
      success = λ i e. one.success i (rest.success i e);
    }
