-- ===== src/Controller/Proposals.antt =====
-- The methods of `RuntimeController` that handle restart proposals, initial admission and the
-- shutdown deadline (src/comfyui_docker_helper/container/runtime/controller.py), one definition
-- each, the guards in the order of the code.
use comfyui_docker_helper.Prelude.{
  ℕ, ◌+◌, String, Bool, true, false, ◌||◌, not, Option, none, some, ◌==◌, if◌then◌else◌, is_some,
}
use comfyui_docker_helper.Controller.{
  TicketState, running, restarting, admitting, stopping_generation, admission_began,
  shutdown_admitted, failure_admitted, not_admitting, returned, raised, new_ticket,
  ShutdownDeadline, ControllerSnapshot, Controller, Method, withdrawn_message, shutdown_message,
  is_running, is_starting, in_phase, update, publish_at,
}

pub data Submission : Type 0 where
  submitted : ℕ → Submission
  busy : Option ℕ → Submission

unfoldable pub observe_shutdown_deadline : ShutdownDeadline → Method Unit
observe_shutdown_deadline d c = (returned tt, record c { shutdown_deadline = some d })

unfoldable pub clear_shutdown_deadline : Method Unit
clear_shutdown_deadline c = (returned tt, record c { shutdown_deadline = none })

pub shutdown_deadline : Controller → Option ShutdownDeadline
shutdown_deadline c = c.shutdown_deadline

unfoldable pub snapshot : Controller → ControllerSnapshot
snapshot c = record {
  state = c.state;
  phase = c.phase;
  generation = c.generation;
  operation = c.operation;
  last_restart = c.last_restart;
}

unfoldable pub submit_restart : Bool → Method Submission
submit_restart delivery_expected c =
    if not (is_running c.state)
      || is_some c.pending_restart
      || is_some c.active_restart
      || is_some c.external_signal
      || is_some c.runtime_failure
    then (returned (busy c.operation), c)
    else (
      returned (submitted c.next_ticket),
      record c {
        tickets =
            update c.tickets c.next_ticket
              (record new_ticket { delivered = not delivery_expected });
        next_ticket = c.next_ticket + 1;
        pending_restart = some c.next_ticket;
        restart_wakeup = true;
      },
    )

-- `withdraw_restart` with the ticket of the pending slot: only that object can be withdrawn.
unfoldable pub withdraw_ticket : Option ℕ → ℕ → Method Bool
withdraw_ticket none ticket c = (returned false, c)
withdraw_ticket (some held) ticket c =
    if held == ticket
    then (
      returned true,
      record c {
        tickets = publish_at ticket TicketState.rejected none (some withdrawn_message) c.tickets;
        pending_restart = none;
        restart_wakeup = false;
      },
    )
    else (returned false, c)

unfoldable pub withdraw_restart : ℕ → Method Bool
withdraw_restart ticket c = withdraw_ticket c.pending_restart ticket c

-- `_reject_pending_unlocked`
unfoldable pub reject_pending : String → Controller → Controller
reject_pending message c = elim c.pending_restart [
  | none ↦ c
  | some ticket ↦ record c {
    tickets = publish_at ticket TicketState.rejected none (some message) c.tickets;
    pending_restart = none;
    restart_wakeup = false;
  }
]

-- What `accept_if_requested` does with the ticket of the pending slot.
unfoldable pub accept_ticket : Option ℕ → Method Bool
accept_ticket none c = (returned false, c)
accept_ticket (some ticket) c =
    if not (is_running c.state) || is_some c.external_signal || is_some c.runtime_failure
    then (
      returned false,
      if is_some c.external_signal
          then reject_pending shutdown_message c
          else elim c.runtime_failure [ none ↦ c | some m ↦ reject_pending m c ],
    )
    else (
      returned true,
      record c {
        tickets =
            publish_at ticket TicketState.accepted (some (c.operation_counter + 1)) none c.tickets;
        operation_counter = c.operation_counter + 1;
        pending_restart = none;
        active_restart = some ticket;
        operation = some (c.operation_counter + 1);
        state = restarting;
        phase = some stopping_generation;
        restart_wakeup = false;
      },
    )

unfoldable pub accept_if_requested : Method Bool
accept_if_requested c = accept_ticket c.pending_restart c

-- Whether `wait` returns at once.
pub wait_ready : Controller → Bool
wait_ready c = c.restart_wakeup

unfoldable pub begin_initial_admission : Method ℕ
begin_initial_admission c =
    if is_some c.generation || not (is_starting c.state)
    then (raised admission_began, c)
    else if is_some c.external_signal
    then (raised shutdown_admitted, c)
    else if is_some c.runtime_failure
    then (raised failure_admitted, c)
    else (returned 1, record c { generation_counter = 1; generation = some 1 })

unfoldable pub mark_initial_generation_running : Method Unit
mark_initial_generation_running c =
    if not (is_starting c.state) || not (in_phase c.phase admitting) || not (is_some c.generation)
    then (raised not_admitting, c)
    else if is_some c.external_signal
    then (raised shutdown_admitted, c)
    else if is_some c.runtime_failure
    then (raised failure_admitted, c)
    else (returned tt, record c { state = running; phase = none })
