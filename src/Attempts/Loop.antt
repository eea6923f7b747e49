-- ===== src/Attempts/Loop.antt =====
-- The loop of `coordinate_transfer_attempts` and the backend wrapper `_OneCallBackend`
-- (src/comfyui_docker_helper/container/transfer/coordinator.py).
use comfyui_docker_helper.Prelude.{
  ℕ, ◌+◌, ◌-◌, ◌*◌, ◌^◌, Bool, true, false, Option, none, some, min, max, is_some, leb, ltb, ◌==◌,
  ◌&&◌, ◌||◌, if◌then◌else◌,
}
use comfyui_docker_helper.Attempts.{
  clean, preserve, ResumeAuthority, FileTransferRequest, DownloadResult, answered, credential_error,
  other_error, TransferResult, Transfer, finish, download, Environment, AttemptResult, Coordinated,
  returned, raised, passed_on,
}

-- `min(float(2 ** (attempt - 1)), 30.0)` in milliseconds, and the wish of the server between that and 30 s; a power
-- of 2 ** 1024 or more is no float.
unfoldable pub selected_delay : ℕ → Option ℕ → Option ℕ
selected_delay attempt retry_after =
    if leb 1024 (attempt - 1)
    then none
    else some (elim retry_after [
      | none ↦ min (500 * 2 ^ attempt) 30000
      | some wish ↦ min (max (min (500 * 2 ^ attempt) 30000) wish) 30000
    ])

module _ {W T O : Type 0} (env : Environment W T O) where
  -- `error.network_attempted` replaces the count of a call that raised a credential error.
  abbrev network_calls : Bool → ℕ
  network_calls attempted = if attempted then 1 else 0

  -- The call of the adapter, behind both observers.
  unfoldable pub call_backend : ℕ → W → DownloadResult T × ℕ × W
  call_backend calls w =
      let (result, w') = env.backend_download w in
      elim result [
        | answered t ↦ (answered t, calls + 1, w')
        | credential_error attempted ↦ (credential_error attempted, network_calls attempted, w')
        | other_error ↦ (other_error, calls + 1, w')
      ]

  unfoldable pub call_observed : ℕ → ℕ → W → DownloadResult T × ℕ × W
  call_observed attempt calls w =
      let (result, w') = env.observe_attempt_start attempt w in
      elim result [
        | answered u ↦ call_backend calls w'
        | credential_error attempted ↦ (credential_error attempted, network_calls attempted, w')
        | other_error ↦ (other_error, calls, w')
      ]

  -- `_OneCallBackend.download`: a second call raises at once.
  unfoldable pub one_call_download : ℕ → ℕ → W → DownloadResult T × ℕ × W
  one_call_download attempt calls w =
      if calls == 0
      then (let (result, w') = env.before_call w in
          elim result [
            | answered u ↦ call_observed attempt calls w'
            | credential_error attempted ↦ (credential_error attempted, network_calls attempted, w')
            | other_error ↦ (other_error, calls, w')
          ])
      else (other_error, calls, w)

  -- `transfer_file` with the wrapper as its backend: the result, the wrapper's count, the world.
  unfoldable pub run_transfer : ℕ → Transfer W T O → ℕ → TransferResult O × ℕ × W
  run_transfer attempt (finish result w) calls = (result, calls, w)
  run_transfer attempt (download w continue) calls =
      let (result, calls', w') = one_call_download attempt calls w in
      run_transfer attempt (continue result w') calls'

  -- `_discard_resume`
  discard_request : FileTransferRequest → ResumeAuthority → FileTransferRequest
  discard_request request authority = record request {
    staging_disposition = preserve;
    resume_authority = some authority;
    preserve_on_retryable = false;
  }

  -- `if resume_authority is not None and not continuation_owner: _discard_resume(...)`: whether it
  -- returned, and the authority that is left.
  unfoldable pub release :
      FileTransferRequest → Bool → Option ResumeAuthority → W → Bool × Option ResumeAuthority × W
  unfolding discard_request
  release request owner none w = (true, none, w)
  release request owner (some authority) w =
      if owner
      then (true, some authority, w)
      else (let (done, w') = env.discard (discard_request request authority) w in (done, none, w'))

  -- The end of a run that was cancelled.
  unfoldable pub end_cancelled :
      FileTransferRequest → Bool → ℕ → Option ResumeAuthority → W → Coordinated O × W
  end_cancelled request owner attempts authority w =
      let (done, left, w') = release request owner authority w in
      (if done then returned (AttemptResult.cancelled attempts left) else raised passed_on, w')

  -- The variables of the loop.
  pub record Progress : Type 0 where
    pub attempts : ℕ
    pub allow_resume : Bool
    pub resume_authority : Option ResumeAuthority
    pub clean_fallback_pending : Bool

  -- The request of the next attempt.
  unfoldable pub admission : FileTransferRequest → ℕ → Bool → Progress → FileTransferRequest
  admission request max_attempts owner p = record request {
    staging_disposition = if is_some p.resume_authority then preserve else clean;
    resume_authority = p.resume_authority;
    preserve_on_retryable = p.allow_resume && (ltb (p.attempts + 1) max_attempts || owner);
    preserve_on_cancellation = p.allow_resume && owner;
  }

  -- What one turn of the loop comes to: an end, or the variables of the next turn.
  pub data Turn : Type 0 where
    ended : Coordinated O → W → Turn
    again : Progress → W → Turn
