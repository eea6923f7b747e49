-- ===== src/Attempts/Authority.antt =====
-- What `coordinate_transfer_attempts` leaves behind for a caller that owns no continuation
-- (src/comfyui_docker_helper/container/transfer/coordinator.py).
use comfyui_docker_helper.Prelude.{
  ℕ, zero, suc, ◌+◌, Bool, true, false, Option, none, some, ltb, arith, Bool-cases, ◌≡◌, refl, inl,
  inr,
}
use comfyui_docker_helper.Attempts.{
  ResumeAuthority, FileTransferRequest, TransferError, TransferResult, rejected, retryable,
  Transfer, finish, download, Wait, woke, wait_raised, Environment, AttemptResult, exhausted,
  Coordinated, returned, raised, authority_without_resume, overflow, DownloadResult,
}
use comfyui_docker_helper.Attempts.Loop.{
  selected_delay, run_transfer, release, end_cancelled, Progress, admission, Turn, ended, again,
}
use comfyui_docker_helper.Attempts.Turns.{
  after_rejection, wait_failed, after_wait, schedule_retry, after_retryable, after_transfer, turn,
  attempt_loop, coordinate, continue_loop,
}

-- The transfer core keeps a partial file only where the request asks for it.
unfoldable pub Honest : {O : Type 0} → FileTransferRequest → TransferResult O → Type 0
Honest request (TransferResult.cancelled authority) =
    request.preserve_on_cancellation ≡ false → authority ≡ none
Honest request (retryable error) =
    request.preserve_on_retryable ≡ false → error.resume_authority ≡ none
Honest request result = Unit

-- The same of a whole run of the core, whatever its backend does.
unfoldable pub HonestRun : {W T O : Type 0} → FileTransferRequest → Transfer W T O → Type 0
HonestRun request (finish result w) = Honest request result
HonestRun {W} {T} request (download w continue) =
    (result : DownloadResult T) → (w' : W) → HonestRun request (continue result w')

-- No authority is left in the result, and none came from a request that allows no resume.
pub NothingLeft : {O : Type 0} → Coordinated O → Type 0
NothingLeft (returned (exhausted attempts error authority)) = authority ≡ none
NothingLeft (returned (AttemptResult.cancelled attempts authority)) = authority ≡ none
NothingLeft (raised authority_without_resume) = ⊥
NothingLeft result = Unit

module _ {W T O : Type 0} (env : Environment W T O) where
  run_transfer-Honest :
      (request : FileTransferRequest)
      → (attempt : ℕ) → (t : Transfer W T O) → (calls : ℕ) → HonestRun request t
      → Honest request (run_transfer env attempt t calls).0
  unfolding run_transfer HonestRun
  run_transfer-Honest request attempt (finish result w) calls h = h
  run_transfer-Honest request attempt (download w continue) calls h =
      run_transfer-Honest request attempt (continue _ _) _ (h _ _)

  pub FallbackIsClean : Progress env → Type 0
  FallbackIsClean p = p.clean_fallback_pending ≡ true → p.allow_resume ≡ false

  pub TurnLeaves : Turn env → Type 0
  unfolding FallbackIsClean
  TurnLeaves (ended result w) = NothingLeft result
  TurnLeaves (again next w) = FallbackIsClean next

module _ {W T O : Type 0} (env : Environment W T O) (request : FileTransferRequest)
    (budget : ℕ) where
  end_cancelled-NothingLeft :
      (attempts : ℕ)
      → (authority : Option ResumeAuthority) → (w : W)
      → NothingLeft (end_cancelled env request false attempts authority w).0
  unfolding end_cancelled release NothingLeft
  end_cancelled-NothingLeft attempts none w = refl
  end_cancelled-NothingLeft attempts (some authority) w = ground arith

  after_rejection-TurnLeaves :
      (calls attempts : ℕ)
      → (p : Progress env) → (w : W)
      → TurnLeaves env (after_rejection env request budget false calls attempts p w)
  unfolding after_rejection TurnLeaves NothingLeft FallbackIsClean
  after_rejection-TurnLeaves calls attempts p w = ground arith

  wait_failed-TurnLeaves :
      (authority : Option ResumeAuthority)
      → (w : W) → TurnLeaves env (wait_failed env request budget false authority w)
  unfolding wait_failed TurnLeaves NothingLeft
  wait_failed-TurnLeaves authority w = tt

  after_wait-TurnLeaves :
      (attempts : ℕ)
      → (resume : Bool) → (authority : Option ResumeAuthority) → (result : Wait) → (w : W)
      → TurnLeaves env (after_wait env request budget false attempts resume authority result w)
  unfolding after_wait TurnLeaves FallbackIsClean
  after_wait-TurnLeaves attempts resume authority wait_raised w = wait_failed-TurnLeaves authority w
  after_wait-TurnLeaves attempts resume authority (woke true) w =
      end_cancelled-NothingLeft attempts authority w
  after_wait-TurnLeaves attempts resume authority (woke false) w =
      ground (arith, end_cancelled-NothingLeft attempts authority (env.cancel_requested w).1)

  schedule_retry-TurnLeaves :
      (attempts : ℕ)
      → (resume : Bool) → (error : TransferError) → (wait_time : ℕ) → (w : W)
      → TurnLeaves env (schedule_retry env request budget false attempts resume error wait_time w)
  unfolding schedule_retry
  schedule_retry-TurnLeaves attempts resume error wait_time w =
      let w1 = (env.observe_retry attempts error w).1 in
      let w2 =
        (env.emit_retry
          record {
            failed_attempt = attempts;
            next_attempt = attempts + 1;
            delay = wait_time;
            reason = error.reason;
            http_status = error.http_status;
          }
          w1).1 in
      ground (
        arith,
        wait_failed-TurnLeaves error.resume_authority w1,
        wait_failed-TurnLeaves error.resume_authority w2,
        after_wait-TurnLeaves attempts resume error.resume_authority (env.wait wait_time w2).0
            (env.wait wait_time w2).1,
      )

  delayed-TurnLeaves :
      (attempts : ℕ)
      → (resume : Bool) → (error : TransferError) → (delay : Option ℕ) → (w : W)
      → TurnLeaves env (elim delay [
        | none ↦ ended (raised overflow) w
        | some wait_time ↦ schedule_retry env request budget false attempts resume error wait_time w
      ])
  unfolding TurnLeaves NothingLeft
  delayed-TurnLeaves attempts resume error none w = tt
  delayed-TurnLeaves attempts resume error (some wait_time) w =
      schedule_retry-TurnLeaves attempts resume error wait_time w

  after_retryable-TurnLeaves :
      (calls : ℕ)
      → (p : Progress env) → (error : TransferError) → (w : W)
      → Honest {O = O} (admission env request budget false p) (retryable error)
      → FallbackIsClean env p
      → TurnLeaves env
          (after_retryable env request budget false calls (p.attempts + calls) p error w)
  unfolding after_retryable TurnLeaves NothingLeft Honest FallbackIsClean admission
  after_retryable-TurnLeaves calls p error w honest clean_after = ground (
    arith,
    delayed-TurnLeaves (p.attempts + calls) p.allow_resume error
        (selected_delay (p.attempts + calls) error.retry_after) w,
  )

  after_transfer-TurnLeaves :
      (p : Progress env)
      → (result : TransferResult O) → (calls : ℕ) → (w : W)
      → Honest (admission env request budget false p) result
      → FallbackIsClean env p
      → TurnLeaves env (after_transfer env request budget false p result calls w)
  unfolding after_transfer TurnLeaves NothingLeft Honest admission
  after_transfer-TurnLeaves p rejected calls w honest clean_after =
      after_rejection-TurnLeaves calls (p.attempts + calls) p w
  after_transfer-TurnLeaves p (retryable error) calls w honest clean_after =
      after_retryable-TurnLeaves calls p error w honest clean_after
  after_transfer-TurnLeaves p _ calls w honest clean_after = ground arith

  module _
      (honest : (asked : FileTransferRequest)
        → (w : W) → HonestRun asked (env.transfer_file asked w)) where
    turn-TurnLeaves :
        (p : Progress env)
        → (w : W) → FallbackIsClean env p
        → TurnLeaves env (turn env request budget false p w)
    unfolding turn TurnLeaves
    turn-TurnLeaves p w clean_after =
        let w1 = (env.cancel_requested w).1 in
        let asked = admission env request budget false p in
        let run = run_transfer env (p.attempts + 1) (env.transfer_file asked w1) 0 in
        ground (
          arith,
          end_cancelled-NothingLeft p.attempts p.resume_authority w1,
          after_transfer-TurnLeaves p run.0 run.1 run.2
              (run_transfer-Honest env asked (p.attempts + 1) (env.transfer_file asked w1) 0
                (honest asked w1))
              clean_after,
        )

    continue-NothingLeft :
        (fuel : ℕ)
        → (t : Turn env) → TurnLeaves env t
        → ((next : Progress env)
            → (w : W) → FallbackIsClean env next
            → NothingLeft (attempt_loop env request budget false fuel next w).0)
        → NothingLeft
            (continue_loop env request budget false
              (attempt_loop env request budget false fuel)
              t).0
    unfolding TurnLeaves
    continue-NothingLeft fuel (ended result w) h rest = h
    continue-NothingLeft fuel (again next w) h rest = rest next w h

    attempt_loop-NothingLeft :
        (fuel : ℕ)
        → (p : Progress env) → (w : W) → FallbackIsClean env p
        → NothingLeft (attempt_loop env request budget false fuel p w).0
    unfolding attempt_loop NothingLeft
    attempt_loop-NothingLeft zero p w clean_after = tt
    attempt_loop-NothingLeft (suc fuel) p w clean_after =
        elim (Bool-cases (ltb p.attempts budget)) [
          | inl e ↦ rw e (
              continue-NothingLeft fuel (turn env request budget false p w)
                (turn-TurnLeaves p w clean_after)
                (λ next w' h. attempt_loop-NothingLeft fuel next w' h))
          | inr e ↦ ground arith
        ]

    -- A caller that owns no continuation, over a core that keeps a partial file only where its
    -- request asks for it, gets no resume authority back from `coordinate_transfer_attempts`, and
    -- the error of an authority without resume is never raised.
    pub coordinate-NothingLeft :
        (aria2_resume : Bool)
        → (w : W) → NothingLeft (coordinate env request budget false aria2_resume w).0
    unfolding coordinate NothingLeft FallbackIsClean
    coordinate-NothingLeft aria2_resume w = ground (
      arith,
      attempt_loop-NothingLeft (suc budget)
          record {
            attempts = 0;
            allow_resume = aria2_resume;
            resume_authority = request.resume_authority;
            clean_fallback_pending = false;
          }
          w (ground arith),
    )
