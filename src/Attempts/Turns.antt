-- ===== src/Attempts/Turns.antt =====
-- One turn of the loop of `coordinate_transfer_attempts`, the loop and its entry
-- (src/comfyui_docker_helper/container/transfer/coordinator.py).
use comfyui_docker_helper.Prelude.{
  ℕ, zero, suc, ◌+◌, Bool, true, false, Option, none, some, is_some, leb, ltb, ◌==◌, not, ◌&&◌,
  ◌||◌, if◌then◌else◌,
}
use comfyui_docker_helper.Attempts.{
  ResumeAuthority, FileTransferRequest, TransferError, resume_rejected, TransferResult, placed,
  credential_failure, rejected, terminal, retryable, failed, Wait, woke, wait_raised, Environment,
  AttemptResult, succeeded, ordinary_terminal, exhausted, local_failure, Coordinated, returned,
  raised, out_of_fuel, empty_budget, authority_without_aria2, unpaid_rejection, unpaid_retry,
  authority_without_resume, unpaid_success, overflow, passed_on, no_result,
}
use comfyui_docker_helper.Attempts.Loop.{
  selected_delay, run_transfer, release, end_cancelled, Progress, admission, Turn, ended, again,
}

-- `TransferDownloadFilesError(str(error), reason=DownloadRetryReason.RESUME_REJECTED)`
abbrev pub rejection_error : TransferError
rejection_error = record {
  reason = resume_rejected;
  http_status = none;
  retry_after = none;
  resume_authority = none;
}

module _ {W T O : Type 0} (env : Environment W T O) (request : FileTransferRequest)
    (max_attempts : ℕ) (owner : Bool) where
  -- `except ResumeRejectedDownloadFilesError`: the next attempt starts clean, at once.
  unfoldable pub after_rejection : ℕ → ℕ → Progress env → W → Turn env
  after_rejection calls attempts p w =
      if not (calls == 1) || not (is_some p.resume_authority) || not p.allow_resume
      then ended (raised unpaid_rejection) w
      else if leb max_attempts attempts
      then ended (returned (exhausted attempts rejection_error none)) w
      else (let (observed, w1) = env.observe_retry attempts rejection_error w in
          if observed
          then (let (emitted, w2) =
                env.emit_retry
                  record {
                    failed_attempt = attempts;
                    next_attempt = attempts + 1;
                    delay = 0;
                    reason = resume_rejected;
                    http_status = none;
                  }
                  w1 in
              if emitted
              then again
                  record {
                    attempts = attempts;
                    allow_resume = false;
                    resume_authority = none;
                    clean_fallback_pending = true;
                  }
                  w2
              else ended (raised passed_on) w2)
          else ended (raised passed_on) w1)

  -- `except Exception` around the wait.
  unfoldable pub wait_failed : Option ResumeAuthority → W → Turn env
  wait_failed authority w =
      let (done, left, w') = release env request owner authority w in ended (raised passed_on) w'

  -- After the wait: `if cancelled or cancel_requested()`, else the next turn.
  unfoldable pub after_wait : ℕ → Bool → Option ResumeAuthority → Wait → W → Turn env
  after_wait attempts allow_resume authority wait_raised w = wait_failed authority w
  after_wait attempts allow_resume authority (woke true) w =
      let (result, w') = end_cancelled env request owner attempts authority w in ended result w'
  after_wait attempts allow_resume authority (woke false) w =
      let (cancel, w1) = env.cancel_requested w in
      if cancel
      then (let (result, w2) = end_cancelled env request owner attempts authority w1 in
          ended result w2)
      else again
          record {
            attempts = attempts;
            allow_resume = allow_resume;
            resume_authority = authority;
            clean_fallback_pending = false;
          }
          w1

  -- The observers and the wait before the next attempt.
  unfoldable pub schedule_retry : ℕ → Bool → TransferError → ℕ → W → Turn env
  schedule_retry attempts allow_resume error wait_time w =
      let (observed, w1) = env.observe_retry attempts error w in
      if observed
      then (let (emitted, w2) =
            env.emit_retry
              record {
                failed_attempt = attempts;
                next_attempt = attempts + 1;
                delay = wait_time;
                reason = error.reason;
                http_status = error.http_status;
              }
              w1 in
          if emitted
          then (let (result, w3) = env.wait wait_time w2 in
              after_wait attempts allow_resume error.resume_authority result w3)
          else wait_failed error.resume_authority w2)
      else wait_failed error.resume_authority w1

  -- `except TransferDownloadFilesError`
  unfoldable pub after_retryable : ℕ → ℕ → Progress env → TransferError → W → Turn env
  after_retryable calls attempts p error w =
      if not (calls == 1)
      then ended (raised unpaid_retry) w
      else if leb max_attempts attempts
      then ended (returned (exhausted attempts error error.resume_authority)) w
      else if is_some error.resume_authority && not p.allow_resume
      then ended (raised authority_without_resume) w
      else if p.clean_fallback_pending
      then ended (returned (exhausted attempts error error.resume_authority)) w
      else elim (selected_delay attempts error.retry_after) [
        | none ↦ ended (raised overflow) w
        | some wait_time ↦ schedule_retry attempts p.allow_resume error wait_time w
      ]

  -- What follows the call of `transfer_file`.
  unfoldable pub after_transfer : Progress env → TransferResult O → ℕ → W → Turn env
  after_transfer p (placed outcome) calls w =
      if leb calls 1
      then ended (returned (succeeded (p.attempts + calls) outcome)) w
      else ended (raised unpaid_success) w
  after_transfer p (credential_failure attempted) calls w =
      ended (returned (local_failure (p.attempts + calls) attempted)) w
  after_transfer p (TransferResult.cancelled authority) calls w =
      ended (returned (AttemptResult.cancelled (p.attempts + calls) authority)) w
  after_transfer p rejected calls w = after_rejection calls (p.attempts + calls) p w
  after_transfer p (terminal error) calls w =
      ended (returned (ordinary_terminal (p.attempts + calls) error)) w
  after_transfer p (retryable error) calls w = after_retryable calls (p.attempts + calls) p error w
  after_transfer p failed calls w = ended (raised passed_on) w

  -- The body of the loop.
  unfoldable pub turn : Progress env → W → Turn env
  turn p w =
      let (cancel, w1) = env.cancel_requested w in
      if cancel
      then (let (result, w2) = end_cancelled env request owner p.attempts p.resume_authority w1 in
          ended result w2)
      else (let (result, calls, w2) =
            run_transfer env (p.attempts + 1)
              (env.transfer_file (admission env request max_attempts owner p) w1) 0 in
          after_transfer p result calls w2)

  abbrev pub continue_loop : (Progress env → W → Coordinated O × W) → Turn env → Coordinated O × W
  continue_loop loop (ended result w) = (result, w)
  continue_loop loop (again next w) = loop next w

  -- `while attempts < max_attempts`, on fuel.
  unfoldable pub attempt_loop : ℕ → Progress env → W → Coordinated O × W
  attempt_loop zero p w = (out_of_fuel, w)
  attempt_loop (suc fuel) p w =
      if ltb p.attempts max_attempts
      then continue_loop (attempt_loop fuel) (turn p w)
      else (raised no_result, w)

  -- `coordinate_transfer_attempts`; `aria2_resume` is
  -- `backend_name == "aria2" and settings.aria2.resume_download`.
  unfoldable pub coordinate : Bool → W → Coordinated O × W
  coordinate aria2_resume w =
      if ltb max_attempts 1
      then (raised empty_budget, w)
      else if is_some request.resume_authority && not aria2_resume
      then (raised authority_without_aria2, w)
      else attempt_loop (suc max_attempts)
          record {
            attempts = 0;
            allow_resume = aria2_resume;
            resume_authority = request.resume_authority;
            clean_fallback_pending = false;
          }
          w
