-- ===== src/Attempts.antt =====
-- src/comfyui_docker_helper/container/transfer/coordinator.py: one budget of transport attempts for
-- one file. What the coordinator calls (the transfer core, the adapter, the cancellation test, the
-- wait, the observers) works on a world of its own, so that each is a function on worlds. An
-- exception is a value; the cancellation test is taken to raise none.
pub mod Loop
pub mod Turns
pub mod Budget
pub mod Authority
pub mod Delays
mod Examples
use comfyui_docker_helper.Prelude.{ℕ, suc, ◌+◌, String, Bool, true, false, Option, none, some}

pub data StagingDisposition : Type 0 where
  clean preserve : StagingDisposition

-- transfer/core.py: `ResumeAuthority`
pub record ResumeAuthority : Type 0 where
  pub identity_digest : String
  pub staging_device : ℕ
  pub staging_inode : ℕ
  pub control_device : Option ℕ
  pub control_inode : Option ℕ

-- transfer/core.py: `FileTransferRequest`
pub record FileTransferRequest : Type 0 where
  pub root : String
  pub url : String
  pub target : String
  pub overwrite : Bool
  pub expected_checksum : Option String
  pub staging_disposition : StagingDisposition
  pub resume_authority : Option ResumeAuthority
  pub preserve_on_retryable : Bool
  pub preserve_on_cancellation : Bool

-- transfer/events.py: `DownloadRetryReason`
pub data RetryReason : Type 0 where
  timeout network temporary_server rate_limited : RetryReason
  resume_rejected checksum_mismatch unknown : RetryReason

-- `TransferDownloadFilesError`; delays are in milliseconds.
pub record TransferError : Type 0 where
  pub reason : RetryReason
  pub http_status : Option ℕ
  pub retry_after : Option ℕ
  pub resume_authority : Option ResumeAuthority

-- What the call of an adapter does: it answers, or raises a `DownloaderCredentialError` with its
-- `network_attempted`, or raises anything else.
pub data DownloadResult (T : Type 0) : Type 0 where
  answered : T → DownloadResult T
  credential_error : Bool → DownloadResult T
  other_error : DownloadResult T

-- What `transfer_file` does: it returns, or raises one of the exceptions that the coordinator tells
-- apart, or any other.
pub data TransferResult (O : Type 0) : Type 0 where
  placed : O → TransferResult O
  credential_failure : Bool → TransferResult O
  cancelled : Option ResumeAuthority → TransferResult O
  rejected : TransferResult O
  terminal : TransferError → TransferResult O
  retryable : TransferError → TransferResult O
  failed : TransferResult O

-- `transfer_file` from a world on: it ends, or calls its backend and goes on from the result. The
-- coordinator sees nothing else of it.
pub data Transfer (W T O : Type 0) : Type 0 where
  finish : TransferResult O → W → Transfer W T O
  download : W → (DownloadResult T → W → Transfer W T O) → Transfer W T O

pub data Wait : Type 0 where
  woke : Bool → Wait
  wait_raised : Wait

-- `DownloadRetryScheduled`
pub record RetryScheduled : Type 0 where
  pub failed_attempt : ℕ
  pub next_attempt : ℕ
  pub delay : ℕ
  pub reason : RetryReason
  pub http_status : Option ℕ

-- What the coordinator is given. A `Bool` beside the world says whether the call returned.
pub record Environment (W T O : Type 0) : Type 0 where
  pub transfer_file : FileTransferRequest → W → Transfer W T O
  pub before_call : W → DownloadResult Unit × W
  pub observe_attempt_start : ℕ → W → DownloadResult Unit × W
  pub backend_download : W → DownloadResult T × W
  pub cancel_requested : W → Bool × W
  pub observe_retry : ℕ → TransferError → W → Bool × W
  pub emit_retry : RetryScheduled → W → Bool × W
  pub wait : ℕ → W → Wait × W
  pub discard : FileTransferRequest → W → Bool × W

pub data AttemptResult (O : Type 0) : Type 0 where
  succeeded : ℕ → O → AttemptResult O
  ordinary_terminal : ℕ → TransferError → AttemptResult O
  exhausted : ℕ → TransferError → Option ResumeAuthority → AttemptResult O
  cancelled : ℕ → Option ResumeAuthority → AttemptResult O
  local_failure : ℕ → Bool → AttemptResult O

-- The exceptions that leave the coordinator; `passed_on` are those of what it calls, and
-- `overflow` that of `float(2 ** 1024)`.
pub data CoordinatorError : Type 0 where
  empty_budget authority_without_aria2 unpaid_rejection unpaid_retry : CoordinatorError
  authority_without_resume unpaid_success overflow passed_on no_result : CoordinatorError

pub data Coordinated (O : Type 0) : Type 0 where
  returned : AttemptResult O → Coordinated O
  raised : CoordinatorError → Coordinated O
  out_of_fuel : Coordinated O
