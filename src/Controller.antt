-- ===== src/Controller.antt =====
-- src/comfyui_docker_helper/container/runtime/controller.py: `RuntimeController` and the restart
-- tickets that it shares with the control listener. A method returns its result, or the
-- `RuntimeControllerError` that it raises, beside the state that it leaves; each runs under the
-- controller's lock and is one step. A ticket is an object that two threads hold, so tickets live
-- in a store, and `pending_restart is ticket` compares positions. The name `op-<n>` is the number
-- n, `gen-<n>` likewise.
pub mod Proposals
pub mod Results
pub mod Steps
pub mod Invariant
pub mod Tickets
pub mod Guarantees
pub mod Failures
mod Examples
use comfyui_docker_helper.Prelude.{
  ℕ, ◌+◌, String, Bool, true, false, Option, none, some, ◌==◌, if◌then◌else◌,
}

pub data TicketState : Type 0 where
  pending accepted succeeded failed rejected : TicketState

pub data RestartResult : Type 0 where
  succeeded failed : RestartResult

pub data ControllerState : Type 0 where
  starting running restarting stopping : ControllerState

pub data ControllerPhase : Type 0 where
  admitting stopping_generation starting_generation finalizing : ControllerPhase

pub data ControllerError : Type 0 where
  admission_began shutdown_admitted failure_admitted not_admitting : ControllerError
  no_stopped_restart nothing_to_release inconsistent_restart : ControllerError
  terminal_result_required no_shutdown_observed no_active_restart no_ready_successor :
      ControllerError

pub data Outcome (A : Type 0) : Type 0 where
  returned : A → Outcome A
  raised : ControllerError → Outcome A

pub record RestartTicket : Type 0 where
  pub revision : ℕ
  pub state : TicketState
  pub operation : Option ℕ
  pub message : Option String
  pub delivered : Bool

pub record TicketSnapshot : Type 0 where
  pub revision : ℕ
  pub state : TicketState
  pub operation : Option ℕ
  pub message : Option String

abbrev pub new_ticket : RestartTicket
new_ticket = record {
  revision = 0;
  state = TicketState.pending;
  operation = none;
  message = none;
  delivered = false;
}

pub record LastRestart : Type 0 where
  pub id : ℕ
  pub result : RestartResult

-- The monotonic instant is a number; the generation is a `gen-<n>` name.
pub record ShutdownDeadline : Type 0 where
  pub generation : Option ℕ
  pub deadline : Option ℕ

pub record ControllerSnapshot : Type 0 where
  pub state : ControllerState
  pub phase : Option ControllerPhase
  pub generation : Option ℕ
  pub operation : Option ℕ
  pub last_restart : Option LastRestart

pub record ExternalShutdownSnapshot : Type 0 where
  pub signal : Option ℕ
  pub repeated : Bool

-- `tickets` is the store; the tickets made so far stand below `next_ticket`.
pub record Controller : Type 0 where
  pub tickets : ℕ → RestartTicket
  pub next_ticket : ℕ
  pub restart_wakeup : Bool
  pub state : ControllerState
  pub phase : Option ControllerPhase
  pub generation_counter : ℕ
  pub generation : Option ℕ
  pub operation_counter : ℕ
  pub operation : Option ℕ
  pub last_restart : Option LastRestart
  pub pending_restart : Option ℕ
  pub active_restart : Option ℕ
  pub active_terminal_result : Option RestartResult
  pub external_signal : Option ℕ
  pub signal_repeated : Bool
  pub runtime_failure : Option String
  pub shutdown_deadline : Option ShutdownDeadline

abbrev pub Method : Type 0 → Type 0
Method A = Controller → Outcome A × Controller

unfoldable pub init : Controller
init = record {
  tickets = λ _. new_ticket;
  next_ticket = 0;
  restart_wakeup = false;
  state = starting;
  phase = some admitting;
  generation_counter = 0;
  generation = none;
  operation_counter = 0;
  operation = none;
  last_restart = none;
  pending_restart = none;
  active_restart = none;
  active_terminal_result = none;
  external_signal = none;
  signal_repeated = false;
  runtime_failure = none;
  shutdown_deadline = none;
}

abbrev pub output_failure_message : String
output_failure_message = "Runtime primary output is unavailable."

abbrev pub withdrawn_message : String
withdrawn_message = "Restart request was withdrawn."

abbrev pub shutdown_message : String
shutdown_message = "Container shutdown was requested."

abbrev pub interrupted_message : String
interrupted_message = "Container shutdown interrupted restart."

abbrev pub is_running : ControllerState → Bool
is_running running = true
is_running _ = false

abbrev pub is_starting : ControllerState → Bool
is_starting starting = true
is_starting _ = false

abbrev pub is_restarting : ControllerState → Bool
is_restarting restarting = true
is_restarting _ = false

abbrev pub is_stopping : ControllerState → Bool
is_stopping stopping = true
is_stopping _ = false

abbrev pub in_phase : Option ControllerPhase → ControllerPhase → Bool
in_phase (some admitting) admitting = true
in_phase (some stopping_generation) stopping_generation = true
in_phase (some starting_generation) starting_generation = true
in_phase (some finalizing) finalizing = true
in_phase _ _ = false

abbrev pub is_succeeded : Option RestartResult → Bool
is_succeeded (some RestartResult.succeeded) = true
is_succeeded _ = false

-- One object of the store changes; every other keeps its value.
abbrev pub update : (ℕ → RestartTicket) → ℕ → RestartTicket → ℕ → RestartTicket
update store i ticket j = if i == j then ticket else store j

abbrev operation_or : Option ℕ → Option ℕ → Option ℕ
operation_or (some o) previous = some o
operation_or none previous = previous

-- `RuntimeRestartTicket._publish`
unfoldable pub publish : TicketState → Option ℕ → Option String → RestartTicket → RestartTicket
publish state operation message t = record t {
  revision = t.revision + 1;
  state = state;
  operation = operation_or operation t.operation;
  message = message;
}

-- `RuntimeRestartTicket._snapshot_unlocked`
pub snapshot_ticket : RestartTicket → TicketSnapshot
snapshot_ticket t = record {
  revision = t.revision;
  state = t.state;
  operation = t.operation;
  message = t.message;
}

-- `publish` on the object at a position.
unfoldable pub publish_at :
    ℕ → TicketState → Option ℕ → Option String → (ℕ → RestartTicket) → ℕ → RestartTicket
publish_at i state operation message store =
    update store i (publish state operation message (store i))

-- `mark_delivery_complete` on the object at a position, from the listener's thread.
unfoldable pub mark_delivery_complete : ℕ → Controller → Controller
mark_delivery_complete i c = record c {
  tickets = update c.tickets i (record (c.tickets i) { delivered = true });
}
