-- ===== src/Attempts/Examples.antt =====
-- Tests and witnesses of the attempt coordinator
-- (src/comfyui_docker_helper/container/transfer/coordinator.py): a core that fails once, keeps its
-- partial file where it is asked to, and then succeeds.
use comfyui_docker_helper.Prelude.{
  ℕ, ◌+◌, ◌≡◌, Bool, true, false, none, some, if◌then◌else◌, ◌==◌, arith, refl,
}
use comfyui_docker_helper.Attempts.{
  clean, ResumeAuthority, FileTransferRequest, network, TransferError, placed, retryable, finish,
  download, woke, Environment, answered, Transfer, returned, succeeded,
}
use comfyui_docker_helper.Attempts.Loop.{
  run_transfer, one_call_download, call_observed, call_backend, admission, selected_delay,
}
use comfyui_docker_helper.Attempts.Turns.{
  coordinate, attempt_loop, turn, after_transfer, after_retryable, schedule_retry, after_wait,
}
use comfyui_docker_helper.Attempts.Budget.{coordinate-Within, Within}
use comfyui_docker_helper.Attempts.Authority.{
  Honest, HonestRun, NothingLeft, coordinate-NothingLeft,
}
use comfyui_docker_helper.Attempts.Delays.{Waits, selected_delay-Waits}

abbrev partial : ResumeAuthority
partial = record {
  identity_digest = "a";
  staging_device = 1;
  staging_inode = 2;
  control_device = none;
  control_inode = none;
}

abbrev asked_first : FileTransferRequest
asked_first = record {
  root = "/models";
  url = "https://example.org/a";
  target = "a";
  overwrite = false;
  expected_checksum = none;
  staging_disposition = clean;
  resume_authority = none;
  preserve_on_retryable = false;
  preserve_on_cancellation = false;
}

abbrev broken : Bool → TransferError
broken keeps = record {
  reason = network;
  http_status = none;
  retry_after = none;
  resume_authority = if keeps then some partial else none;
}

-- The world counts the calls of the adapter.
abbrev one_failure : FileTransferRequest → ℕ → Transfer ℕ Unit Unit
one_failure asked w = download w (λ result w'.
    finish (if w' == 1 then retryable (broken asked.preserve_on_retryable) else placed tt) w')

abbrev flaky : Environment ℕ Unit Unit
flaky = record {
  transfer_file = one_failure;
  before_call = λ w. (answered tt, w);
  observe_attempt_start = λ attempt w. (answered tt, w);
  backend_download = λ w. (answered tt, w + 1);
  cancel_requested = λ w. (false, w);
  observe_retry = λ attempts error w. (true, w);
  emit_retry = λ event w. (true, w);
  wait = λ delay w. (woke false, w);
  discard = λ asked w. (true, w);
}

second_attempt : (coordinate flaky asked_first 3 false true 0).0 ≡ returned (succeeded 2 tt)
unfolding coordinate attempt_loop turn after_transfer run_transfer one_call_download call_observed
    call_backend after_retryable admission selected_delay schedule_retry after_wait
second_attempt = refl

flaky-honest :
    (asked : FileTransferRequest) → (w : ℕ) → HonestRun asked (flaky.transfer_file asked w)
unfolding HonestRun Honest
flaky-honest asked w result w' = ground arith

coordinate-Within_example : Within 3 (coordinate flaky asked_first 3 false true 0).0
coordinate-Within_example = coordinate-Within flaky asked_first 3 false true 0

coordinate-NothingLeft_example : NothingLeft (coordinate flaky asked_first 3 false true 0).0
coordinate-NothingLeft_example = coordinate-NothingLeft flaky asked_first 3 flaky-honest true 0

selected_delay-Waits_example : Waits 3 (some 500) (some 4000)
unfolding selected_delay
selected_delay-Waits_example = selected_delay-Waits 3 (some 500)
