-- ===== src/Controller/Examples.antt =====
-- Runs of the restart controller (src/comfyui_docker_helper/container/runtime/controller.py).
use comfyui_docker_helper.Prelude.{
  ℕ, ◌+◌, is_some, ◌≡◌, refl, true, some, none, List, [], ◌∷◌, arith,
}
use comfyui_docker_helper.Controller.{
  TicketState, RestartResult, Controller, ControllerState, ControllerPhase, init, raised, returned,
  running, stopping, no_active_restart, finalizing,
}
use comfyui_docker_helper.Controller.Proposals.{
  submit_restart, accept_if_requested, accept_ticket, begin_initial_admission,
  mark_initial_generation_running,
}
use comfyui_docker_helper.Controller.Results.{
  publish_restart_terminal, publish_result, mark_external_shutdown, allocate_restart_successor,
  release_successful_restart, observe_external_signal,
}
use comfyui_docker_helper.Controller.Steps.{Call, step, run}
use comfyui_docker_helper.Controller.Invariant.{Inv}
use comfyui_docker_helper.Controller.Tickets.{may_become}
use comfyui_docker_helper.Controller.Guarantees.{
  run-init-Inv, open_ticket_unique, ticket_moves_forward, Frozen, signal_freezes,
  pending_is_accepted, shutdown_settles, publish_once, is_open,
}
use comfyui_docker_helper.Controller.Failures.{FailureHolds, failure_holds}

abbrev proposed : List Call
proposed = Call.begins_admission ∷ Call.marks_running ∷ Call.submits true ∷ []

abbrev restarting_calls : List Call
restarting_calls =
    Call.begins_admission
    ∷ Call.marks_running
    ∷ Call.submits true
    ∷ Call.accepts
    ∷ Call.allocates
    ∷ []

one_restart :
    ((run init (
        Call.begins_admission
        ∷ Call.marks_running
        ∷ Call.submits true
        ∷ Call.accepts
        ∷ Call.allocates
        ∷ Call.publishes RestartResult.succeeded none
        ∷ Call.releases
        ∷ [])).state
      ≡ running)
    × ((run init (
          Call.begins_admission
          ∷ Call.marks_running
          ∷ Call.submits true
          ∷ Call.accepts
          ∷ Call.allocates
          ∷ Call.publishes RestartResult.succeeded none
          ∷ Call.releases
          ∷ [])).generation
        ≡ some 2)
unfolding run init step begin_initial_admission mark_initial_generation_running submit_restart
    accept_if_requested accept_ticket allocate_restart_successor publish_restart_terminal
    publish_result release_successful_restart
one_restart = (refl, refl)

run-init-Inv_example : Inv (run init restarting_calls)
run-init-Inv_example = run-init-Inv restarting_calls

proposed_made :
    ((run init proposed).next_ticket ≡ 1) × (is_open ((run init proposed).tickets 0).state ≡ true)
unfolding run init step begin_initial_admission mark_initial_generation_running submit_restart
proposed_made = (refl, refl)

open_ticket_unique_example : ◌≡◌ {A = ℕ} 0 0
open_ticket_unique_example =
    open_ticket_unique proposed 0 0 (omega (arith, proposed_made.0))
      (omega (arith, proposed_made.0)) proposed_made.1 proposed_made.1

ticket_moves_forward_example :
    may_become
      ((run init proposed).tickets 0).state
      ((step (run init proposed) Call.accepts).tickets 0).state
    ≡ true
ticket_moves_forward_example =
    ticket_moves_forward proposed Call.accepts 0 (omega (arith, proposed_made.0))

signal_freezes_example :
    Frozen 15
      (record init { external_signal = some 15 })
      (run (record init { external_signal = some 15 }) restarting_calls)
signal_freezes_example =
    signal_freezes 15 (record init { external_signal = some 15 }) restarting_calls refl

proposed_pending :
    ((run init proposed).pending_restart ≡ some 0)
    × ((run init proposed).external_signal ≡ none)
    × ((run init proposed).runtime_failure ≡ none)
unfolding run init step begin_initial_admission mark_initial_generation_running submit_restart
proposed_pending = (refl, refl, refl)

pending_is_accepted_example :
    ((run init proposed).restart_wakeup ≡ true)
    × ((accept_if_requested (run init proposed)).0 ≡ returned true)
    × ((accept_if_requested (run init proposed)).1.active_restart ≡ some 0)
    × ((accept_if_requested (run init proposed)).1.operation
        ≡ some ((run init proposed).operation_counter + 1))
    × (((accept_if_requested (run init proposed)).1.tickets 0).state ≡ TicketState.accepted)
pending_is_accepted_example =
    pending_is_accepted proposed 0 proposed_pending.0 proposed_pending.1 proposed_pending.2

abbrev signalled : List Call
signalled =
    Call.begins_admission
    ∷ Call.marks_running
    ∷ Call.submits true
    ∷ Call.accepts
    ∷ Call.allocates
    ∷ Call.observes_signal 15
    ∷ []

signalled_latched : is_some (run init signalled).external_signal ≡ true
unfolding run init step begin_initial_admission mark_initial_generation_running submit_restart
    accept_if_requested accept_ticket allocate_restart_successor observe_external_signal
signalled_latched = refl

shutdown_settles_example :
    ((mark_external_shutdown (run init signalled)).0 ≡ returned tt)
    × ((mark_external_shutdown (run init signalled)).1.state ≡ stopping)
    × ((mark_external_shutdown (run init signalled)).1.phase ≡ some finalizing)
    × ((mark_external_shutdown (run init signalled)).1.pending_restart ≡ none)
    × (is_some (mark_external_shutdown (run init signalled)).1.active_terminal_result
        ≡ is_some (run init signalled).active_restart)
shutdown_settles_example =
    shutdown_settles (run init signalled) (run-init-Inv signalled) signalled_latched

-- A restart under way when the runtime fails.
abbrev failing : Controller
failing = record init {
  state = ControllerState.restarting;
  phase = some ControllerPhase.starting_generation;
  next_ticket = 1;
  active_restart = some 0;
  operation_counter = 1;
  operation = some 1;
  runtime_failure = some "Runtime primary output is unavailable.";
}

failing_publishes : (publish_restart_terminal RestartResult.failed none failing).0 ≡ returned tt
unfolding publish_restart_terminal publish_result init
failing_publishes = refl

publish_once_example :
    publish_restart_terminal RestartResult.succeeded none
      (publish_restart_terminal RestartResult.failed none failing).1
    ≡ (raised no_active_restart, (publish_restart_terminal RestartResult.failed none failing).1)
publish_once_example =
    publish_once failing RestartResult.failed RestartResult.succeeded none none failing_publishes

-- The success is published as a failure, and a new proposal is refused.
abbrev after_failure : List Call
after_failure = Call.publishes RestartResult.succeeded none ∷ Call.submits true ∷ Call.releases ∷ []

failure_holds_example :
    FailureHolds "Runtime primary output is unavailable." failing (run failing after_failure)
unfolding init
failure_holds_example =
    failure_holds "Runtime primary output is unavailable." failing after_failure refl
