-- ===== src/Controller/Guarantees.antt =====
-- What callers of src/comfyui_docker_helper/container/runtime/controller.py rely on.
use comfyui_docker_helper.Prelude.{
  ℕ, ◌+◌, ◌<◌, String, ◌≡◌, refl, Bool, true, false, Option, none, some, List, [], ◌∷◌, arith,
  is_some,
}
use comfyui_docker_helper.Controller.{
  TicketState, RestartResult, Controller, running, stopping, finalizing, init, publish, publish_at,
  returned, raised, no_active_restart, mark_delivery_complete,
}
use comfyui_docker_helper.Controller.Proposals.{
  withdraw_ticket, accept_ticket, reject_pending, observe_shutdown_deadline,
  clear_shutdown_deadline, submit_restart, withdraw_restart, accept_if_requested,
  begin_initial_admission, mark_initial_generation_running,
}
use comfyui_docker_helper.Controller.Results.{
  publish_result, publish_restart_terminal, interrupt_active, mark_external_shutdown,
  mark_generation_terminal, allocate_restart_successor, release_successful_restart,
  observe_external_signal, observe_runtime_failure,
}
use comfyui_docker_helper.Controller.Steps.{Call, step, run}
use comfyui_docker_helper.Controller.Invariant.{Inv, init-Inv, run-Inv}
use comfyui_docker_helper.Controller.Tickets.{Fits, init-Fits, may_become}
use comfyui_docker_helper.Controller.Tickets.Calls.{run-Fits, step-Tracks}

-- After any calls on a new controller, the state, the phase, the slots, the result and the names
-- are consistent, as the record `Inv` says.
pub run-init-Inv : (calls : List Call) → Inv (run init calls)
run-init-Inv calls = run-Inv init calls init-Inv

-- An open ticket has no result yet.
abbrev pub is_open : TicketState → Bool
is_open TicketState.pending = true
is_open TicketState.accepted = true
is_open _ = false

one_open :
    (c : Controller) (i j : ℕ)
    → Inv c
    → Fits c i
    → Fits c j
    → i < c.next_ticket
    → j < c.next_ticket
    → is_open (c.tickets i).state ≡ true
    → is_open (c.tickets j).state ≡ true
    → i ≡ j
one_open c i j h fi fj mi mj oi oj = ground arith

-- After any calls on a new controller, at most one of the tickets made is pending or accepted.
pub open_ticket_unique :
    (calls : List Call) (i j : ℕ)
    → i < (run init calls).next_ticket
    → j < (run init calls).next_ticket
    → is_open ((run init calls).tickets i).state ≡ true
    → is_open ((run init calls).tickets j).state ≡ true
    → i ≡ j
open_ticket_unique calls i j =
    one_open (run init calls) i j (run-init-Inv calls)
      (run-Fits init calls i init-Inv (init-Fits i)) (run-Fits init calls j init-Inv (init-Fits j))

-- After any calls on a new controller, one more call moves a ticket that was made only along
-- pending → accepted → succeeded or failed and pending → rejected, at most one arrow.
pub ticket_moves_forward :
    (calls : List Call) (call : Call) (i : ℕ)
    → i < (run init calls).next_ticket
    → may_become ((run init calls).tickets i).state ((step (run init calls) call).tickets i).state
      ≡ true
ticket_moves_forward calls call i =
    (step-Tracks (run init calls) call i (run-init-Inv calls)
      (run-Fits init calls i init-Inv (init-Fits i))).moves

step_stopping : (c : Controller) (call : Call) → c.state ≡ stopping → (step c call).state ≡ stopping
unfolding step observe_shutdown_deadline clear_shutdown_deadline submit_restart withdraw_restart
    withdraw_ticket accept_if_requested accept_ticket reject_pending begin_initial_admission
    mark_initial_generation_running allocate_restart_successor publish_restart_terminal
    publish_result release_successful_restart mark_generation_terminal observe_external_signal
    mark_external_shutdown interrupt_active observe_runtime_failure mark_delivery_complete
step_stopping c (Call.observes_deadline d) h = ground arith
step_stopping c _ h = ground arith

-- A controller that is stopping stays so, whatever the calls.
stopping_absorbs :
    (c : Controller) (calls : List Call) → c.state ≡ stopping → (run c calls).state ≡ stopping
unfolding run
stopping_absorbs c [] h = h
stopping_absorbs c (call ∷ calls) h = stopping_absorbs (step c call) calls (step_stopping c call h)

-- What an external signal freezes.
pub record Frozen (sig : ℕ) (c d : Controller) : Type 0 where
  pub signal : d.external_signal ≡ some sig
  pub operations : d.operation_counter ≡ c.operation_counter
  pub generations : d.generation_counter ≡ c.generation_counter
  pub tickets : d.next_ticket ≡ c.next_ticket

step-Frozen :
    (sig : ℕ) (c : Controller) (call : Call)
    → c.external_signal ≡ some sig
    → Frozen sig c (step c call)
unfolding step observe_shutdown_deadline clear_shutdown_deadline submit_restart withdraw_restart
    withdraw_ticket accept_if_requested accept_ticket reject_pending begin_initial_admission
    mark_initial_generation_running allocate_restart_successor publish_restart_terminal
    publish_result release_successful_restart mark_generation_terminal observe_external_signal
    mark_external_shutdown interrupt_active observe_runtime_failure mark_delivery_complete
step-Frozen sig c (Call.observes_deadline d) h = ground arith
step-Frozen sig c _ h = ground arith

-- Once a signal is latched it stays the first one, and no later calls make a ticket, accept a
-- restart or allocate a generation.
pub signal_freezes :
    (sig : ℕ) (c : Controller) (calls : List Call)
    → c.external_signal ≡ some sig
    → Frozen sig c (run c calls)
unfolding run
signal_freezes sig c [] h = record {
  signal = h;
  operations = refl;
  generations = refl;
  tickets = refl;
}
signal_freezes sig c (call ∷ calls) h =
    let one : Frozen sig c (step c call) = step-Frozen sig c call h in
    let rest : Frozen sig (step c call) (run (step c call) calls) =
      signal_freezes sig (step c call) calls one.signal in
    ground arith

accept_ticket_pending :
    (o : Option ℕ) (c : Controller) (t : ℕ)
    → o ≡ some t
    → c.state ≡ running
    → c.external_signal ≡ none
    → c.runtime_failure ≡ none
    → ((accept_ticket o c).0 ≡ returned true)
      × ((accept_ticket o c).1.active_restart ≡ some t)
      × ((accept_ticket o c).1.operation ≡ some (c.operation_counter + 1))
      × (((accept_ticket o c).1.tickets t).state ≡ TicketState.accepted)
unfolding accept_ticket publish_at publish
accept_ticket_pending none c t e r s f = cc
accept_ticket_pending (some p) c t e r s f = ground arith

-- After any calls on a new controller, a pending proposal has the wait ready; and while neither a
-- signal nor a failure is latched the next look accepts that ticket, under an operation name that is
-- one above every earlier one.
pub pending_is_accepted :
    (calls : List Call) (t : ℕ)
    → (run init calls).pending_restart ≡ some t
    → (run init calls).external_signal ≡ none
    → (run init calls).runtime_failure ≡ none
    → ((run init calls).restart_wakeup ≡ true)
      × ((accept_if_requested (run init calls)).0 ≡ returned true)
      × ((accept_if_requested (run init calls)).1.active_restart ≡ some t)
      × ((accept_if_requested (run init calls)).1.operation
          ≡ some ((run init calls).operation_counter + 1))
      × (((accept_if_requested (run init calls)).1.tickets t).state ≡ TicketState.accepted)
unfolding accept_if_requested
pending_is_accepted calls t p s f =
    let c : Controller = run init calls in
    let h : Inv c = run-init-Inv calls in
    let (a, b, d, e) = accept_ticket_pending c.pending_restart c t p (ground arith) s f in
    (ground arith, a, b, d, e)

-- From a consistent state with a latched signal, `mark_external_shutdown` returns: the controller
-- is finalizing, no proposal is pending, and an active restart has a result.
pub shutdown_settles :
    (c : Controller)
    → Inv c
    → is_some c.external_signal ≡ true
    → ((mark_external_shutdown c).0 ≡ returned tt)
      × ((mark_external_shutdown c).1.state ≡ stopping)
      × ((mark_external_shutdown c).1.phase ≡ some finalizing)
      × ((mark_external_shutdown c).1.pending_restart ≡ none)
      × (is_some (mark_external_shutdown c).1.active_terminal_result ≡ is_some c.active_restart)
unfolding mark_external_shutdown interrupt_active reject_pending publish_restart_terminal
    publish_result
shutdown_settles c h s = ground arith

-- A result, once published, cannot be published again: the call raises and changes nothing.
pub publish_once :
    (c : Controller) (r q : RestartResult) (m n : Option String)
    → (publish_restart_terminal r m c).0 ≡ returned tt
    → publish_restart_terminal q n (publish_restart_terminal r m c).1
      ≡ (raised no_active_restart, (publish_restart_terminal r m c).1)
unfolding publish_restart_terminal publish_result
publish_once c r q m n h = ground arith
