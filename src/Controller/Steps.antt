-- ===== src/Controller/Steps.antt =====
-- The calls that the lifecycle thread, the listener and the signal handler make on one controller
-- (src/comfyui_docker_helper/container/runtime/controller.py), and the states that they reach.
use comfyui_docker_helper.Prelude.{ℕ, String, Bool, Option, List, [], ◌∷◌}
use comfyui_docker_helper.Controller.{
  RestartResult, ShutdownDeadline, Controller, mark_delivery_complete,
}
use comfyui_docker_helper.Controller.Proposals.{
  observe_shutdown_deadline, clear_shutdown_deadline, submit_restart, withdraw_restart,
  accept_if_requested, begin_initial_admission, mark_initial_generation_running,
}
use comfyui_docker_helper.Controller.Results.{
  publish_restart_terminal, allocate_restart_successor, release_successful_restart,
  mark_generation_terminal, observe_external_signal, mark_external_shutdown,
  observe_runtime_failure,
}

pub data Call : Type 0 where
  observes_deadline : ShutdownDeadline → Call
  clears_deadline : Call
  submits : Bool → Call
  withdraws : ℕ → Call
  accepts : Call
  begins_admission : Call
  marks_running : Call
  allocates : Call
  publishes : RestartResult → Option String → Call
  releases : Call
  marks_terminal : String → Call
  observes_signal : ℕ → Call
  marks_shutdown : Call
  observes_failure : Call
  delivers : ℕ → Call

-- The state that a call leaves, whether it returns or raises.
unfoldable pub step : Controller → Call → Controller
step c (observes_deadline d) = (observe_shutdown_deadline d c).1
step c clears_deadline = (clear_shutdown_deadline c).1
step c (submits delivery) = (submit_restart delivery c).1
step c (withdraws ticket) = (withdraw_restart ticket c).1
step c accepts = (accept_if_requested c).1
step c begins_admission = (begin_initial_admission c).1
step c marks_running = (mark_initial_generation_running c).1
step c allocates = (allocate_restart_successor c).1
step c (publishes result message) = (publish_restart_terminal result message c).1
step c releases = (release_successful_restart c).1
step c (marks_terminal message) = (mark_generation_terminal message c).1
step c (observes_signal sig) = (observe_external_signal sig c).1
step c marks_shutdown = (mark_external_shutdown c).1
step c observes_failure = (observe_runtime_failure c).1
step c (delivers ticket) = mark_delivery_complete ticket c

unfoldable pub run : Controller → List Call → Controller
run c [] = c
run c (call ∷ calls) = run (step c call) calls
