-- ===== src/Controller/Results.antt =====
-- The methods of `RuntimeController` that publish the result of a restart, latch an external
-- signal or a runtime failure, and end the controller
-- (src/comfyui_docker_helper/container/runtime/controller.py).
use comfyui_docker_helper.Prelude.{
  ℕ, ◌+◌, String, Bool, true, false, ◌||◌, ◌&&◌, not, Option, none, some, if◌then◌else◌, is_some,
}
use comfyui_docker_helper.Controller.{
  TicketState, RestartResult, running, stopping, stopping_generation, starting_generation,
  finalizing, no_stopped_restart, nothing_to_release, inconsistent_restart,
  terminal_result_required, no_shutdown_observed, no_active_restart, no_ready_successor, Outcome,
  returned, raised, ExternalShutdownSnapshot, Controller, Method, output_failure_message,
  shutdown_message, interrupted_message, is_restarting, is_stopping, in_phase, is_succeeded,
  publish_at,
}
use comfyui_docker_helper.Controller.Proposals.{reject_pending}

abbrev pub ticket_result : RestartResult → TicketState
ticket_result RestartResult.succeeded = TicketState.succeeded
ticket_result RestartResult.failed = TicketState.failed

-- A success is published as a failure once the runtime has failed.
abbrev pub effective_result : RestartResult → Option String → RestartResult
effective_result RestartResult.succeeded (some m) = RestartResult.failed
effective_result result _ = result

abbrev pub effective_message : RestartResult → Option String → Option String → Option String
effective_message RestartResult.succeeded (some m) message = some m
effective_message _ _ message = message

-- The part of `_publish_restart_terminal_unlocked` below the override of the result.
unfoldable pub publish_result : RestartResult → Option String → Option ℕ → Option ℕ → Method Unit
publish_result result message (some ticket) (some operation) c =
    if is_some c.active_terminal_result
    then (raised no_active_restart, c)
    else if is_succeeded (some result)
        && (not (is_restarting c.state) || not (in_phase c.phase starting_generation))
    then (raised no_ready_successor, c)
    else (
      returned tt,
      record c {
        tickets = publish_at ticket (ticket_result result) (some operation) message c.tickets;
        last_restart = some (record { id = operation; result = result });
        active_terminal_result = some result;
        phase = some finalizing;
        state = if is_succeeded (some result) then c.state else stopping;
      },
    )
publish_result result message _ _ c = (raised no_active_restart, c)

-- `publish_restart_terminal` and `_publish_restart_terminal_unlocked`
unfoldable pub publish_restart_terminal : RestartResult → Option String → Method Unit
publish_restart_terminal result message c =
    publish_result (effective_result result c.runtime_failure)
      (effective_message result c.runtime_failure message) c.active_restart c.operation c

-- The call of `_publish_restart_terminal_unlocked` that `return None` follows.
abbrev pub and_return : {A : Type 0} → A → Outcome Unit × Controller → Outcome A × Controller
and_return a (returned u, c) = (returned a, c)
and_return a (raised e, c) = (raised e, c)

unfoldable pub allocate_restart_successor : Method (Option ℕ)
allocate_restart_successor c =
    if not (is_restarting c.state)
      || not (in_phase c.phase stopping_generation)
      || not (is_some c.active_restart)
    then (raised no_stopped_restart, c)
    else if is_some c.external_signal
    then and_return none
        (publish_restart_terminal RestartResult.failed (some interrupted_message) c)
    else if is_some c.runtime_failure
    then and_return none (publish_restart_terminal RestartResult.failed c.runtime_failure c)
    else (
      returned (some (c.generation_counter + 1)),
      record c {
        generation_counter = c.generation_counter + 1;
        generation = some (c.generation_counter + 1);
        phase = some starting_generation;
      },
    )

unfoldable pub release_successful_restart : Method Bool
release_successful_restart c =
    if not (is_succeeded c.active_terminal_result)
    then (raised nothing_to_release, c)
    else if is_some c.external_signal || is_stopping c.state || is_some c.runtime_failure
    then (returned false, record c { state = stopping; phase = some finalizing })
    else if not (is_restarting c.state)
        || not (in_phase c.phase finalizing)
        || not (is_some c.active_restart)
        || not (is_some c.operation)
    then (raised inconsistent_restart, c)
    else (
      returned true,
      record c {
        operation = none;
        active_restart = none;
        active_terminal_result = none;
        state = running;
        phase = none;
      },
    )

unfoldable pub mark_generation_terminal : String → Method Unit
mark_generation_terminal message c =
    if is_some c.active_restart || is_some c.active_terminal_result
    then (raised terminal_result_required, c)
    else (
      returned tt,
      record (reject_pending message c) { state = stopping; phase = some finalizing },
    )

-- The signal handler: the first signal is kept, a later one only marks the repetition.
unfoldable pub observe_external_signal : ℕ → Method Unit
observe_external_signal sig c =
    if not (is_some c.external_signal)
    then (returned tt, record c { external_signal = some sig; signal_repeated = false })
    else if not c.signal_repeated
    then (returned tt, record c { signal_repeated = true })
    else (returned tt, c)

-- The statements of `mark_external_shutdown` behind its two publications.
abbrev pub finish_shutdown : Outcome Unit × Controller → Outcome Unit × Controller
finish_shutdown (returned u, c) =
    (returned tt, record c { state = stopping; phase = some finalizing })
finish_shutdown (raised e, c) = (raised e, c)

unfoldable pub interrupt_active : Method Unit
interrupt_active c =
    if is_some c.active_restart && not (is_some c.active_terminal_result)
    then publish_restart_terminal RestartResult.failed (some interrupted_message) c
    else (returned tt, c)

unfoldable pub mark_external_shutdown : Method Unit
mark_external_shutdown c =
    if not (is_some c.external_signal)
    then (raised no_shutdown_observed, c)
    else finish_shutdown (interrupt_active (reject_pending shutdown_message c))

pub external_shutdown_snapshot : Controller → ExternalShutdownSnapshot
external_shutdown_snapshot c = record { signal = c.external_signal; repeated = c.signal_repeated }

-- The reported text is dropped: the fixed message is latched once.
unfoldable pub observe_runtime_failure : Method Unit
observe_runtime_failure c = if is_some c.runtime_failure then (returned tt, c) else (
  returned tt,
  record c { runtime_failure = some output_failure_message; restart_wakeup = true },
)

pub runtime_failure_message : Controller → Option String
runtime_failure_message c = c.runtime_failure

-- `woken` is what the wait on the ticket's delivery event answers, where there is one.
unfoldable pub wait_for_terminal_delivery : Bool → Controller → Bool
wait_for_terminal_delivery woken c =
    if not (is_some c.active_restart) || not (is_some c.active_terminal_result) then true else woken
