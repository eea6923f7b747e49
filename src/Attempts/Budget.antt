-- ===== src/Attempts/Budget.antt =====
-- The budget of attempts of `coordinate_transfer_attempts`
-- (src/comfyui_docker_helper/container/transfer/coordinator.py).
use comfyui_docker_helper.Prelude.{
  ℕ, zero, suc, ◌+◌, ◌≤◌, ◌<◌, Bool, true, false, Option, none, some, ltb, arith, Bool-cases, ◌≡◌,
  inl, inr,
}
use comfyui_docker_helper.Attempts.{
  ResumeAuthority, FileTransferRequest, TransferError, TransferResult, rejected, retryable,
  Transfer, finish, download, Wait, woke, wait_raised, Environment, AttemptResult, succeeded,
  ordinary_terminal, exhausted, local_failure, Coordinated, returned, raised, out_of_fuel, overflow,
  no_result,
}
use comfyui_docker_helper.Attempts.Loop.{
  selected_delay, call_backend, call_observed, one_call_download, run_transfer, end_cancelled,
  Progress, Turn, ended, again,
}
use comfyui_docker_helper.Attempts.Turns.{
  after_rejection, wait_failed, after_wait, schedule_retry, after_retryable, after_transfer, turn,
  attempt_loop, coordinate, continue_loop,
}

-- The attempts that a result reports.
pub spent : {O : Type 0} → AttemptResult O → ℕ
spent (succeeded attempts outcome) = attempts
spent (ordinary_terminal attempts error) = attempts
spent (exhausted attempts error authority) = attempts
spent (AttemptResult.cancelled attempts authority) = attempts
spent (local_failure attempts attempted) = attempts

-- The coordinator ends within its budget: neither its fuel nor its loop runs out, and a result
-- reports at most the budget.
pub Within : {O : Type 0} → ℕ → Coordinated O → Type 0
unfolding spent
Within budget (returned result) = spent result ≤ budget
Within budget (raised no_result) = ⊥
Within budget (raised error) = Unit
Within budget out_of_fuel = ⊥

module _ {W T O : Type 0} (env : Environment W T O) where
  call_backend-calls : (w : W) → (call_backend env 0 w).1 ≤ 1
  unfolding call_backend
  call_backend-calls w = ground arith

  call_observed-calls : (attempt : ℕ) → (w : W) → (call_observed env attempt 0 w).1 ≤ 1
  unfolding call_observed
  call_observed-calls attempt w =
      ground (arith, call_backend-calls (env.observe_attempt_start attempt w).1)

  one_call-calls :
      (attempt calls : ℕ) → (w : W) → calls ≤ 1 → (one_call_download env attempt calls w).1 ≤ 1
  unfolding one_call_download
  one_call-calls attempt zero w h =
      ground (arith, call_observed-calls attempt (env.before_call w).1)
  one_call-calls attempt (suc calls) w h = ground arith

  -- A run of the transfer core calls the adapter of the downloader at most once, whatever the core
  -- does, if its count starts at 0 or 1.
  run_transfer-calls :
      (attempt : ℕ)
      → (t : Transfer W T O) → (calls : ℕ) → calls ≤ 1
      → (run_transfer env attempt t calls).1 ≤ 1
  unfolding run_transfer
  run_transfer-calls attempt (finish result w) calls h = h
  run_transfer-calls attempt (download w continue) calls h =
      run_transfer-calls attempt (continue _ _) _ (one_call-calls attempt calls w h)

  -- What a turn of the loop may come to.
  pub TurnWithin : ℕ → Progress env → Turn env → Type 0
  TurnWithin budget p (ended result w) = Within budget result
  TurnWithin budget p (again next w) = (next.attempts ≡ p.attempts + 1) × (next.attempts < budget)

module _ {W T O : Type 0} (env : Environment W T O) (request : FileTransferRequest) (budget : ℕ)
    (owner : Bool) where
  end_cancelled-Within :
      (attempts : ℕ)
      → (authority : Option ResumeAuthority) → (w : W) → attempts ≤ budget
      → Within budget (end_cancelled env request owner attempts authority w).0
  unfolding end_cancelled Within spent
  end_cancelled-Within attempts authority w h = ground arith

  after_rejection-Within :
      (calls : ℕ)
      → (p : Progress env) → (w : W) → calls ≤ 1
      → p.attempts < budget
      → TurnWithin env budget p
          (after_rejection env request budget owner calls (p.attempts + calls) p w)
  unfolding after_rejection TurnWithin Within spent
  after_rejection-Within calls p w h room = ground arith

  after_wait-Within :
      (p : Progress env)
      → (attempts : ℕ) → (resume : Bool) → (authority : Option ResumeAuthority) → (result : Wait)
      → (w : W) → attempts ≡ p.attempts + 1
      → attempts < budget
      → TurnWithin env budget p
          (after_wait env request budget owner attempts resume authority result w)
  unfolding after_wait wait_failed TurnWithin Within
  after_wait-Within p attempts resume authority wait_raised w e room = ground arith
  after_wait-Within p attempts resume authority (woke true) w e room =
      end_cancelled-Within attempts authority w (omega arith)
  after_wait-Within p attempts resume authority (woke false) w e room =
      ground
        (arith, end_cancelled-Within attempts authority (env.cancel_requested w).1 (omega arith))

  wait_failed-Within :
      (p : Progress env)
      → (authority : Option ResumeAuthority) → (w : W)
      → TurnWithin env budget p (wait_failed env request budget owner authority w)
  unfolding wait_failed TurnWithin Within
  wait_failed-Within p authority w = ground arith

  schedule_retry-Within :
      (p : Progress env)
      → (attempts : ℕ) → (resume : Bool) → (error : TransferError) → (wait_time : ℕ) → (w : W)
      → attempts ≡ p.attempts + 1
      → attempts < budget
      → TurnWithin env budget p
          (schedule_retry env request budget owner attempts resume error wait_time w)
  unfolding schedule_retry
  schedule_retry-Within p attempts resume error wait_time w e room =
      let w1 = (env.observe_retry attempts error w).1 in
      let w2 =
        (env.emit_retry
          record {
            failed_attempt = attempts;
            next_attempt = attempts + 1;
            delay = wait_time;
            reason = error.reason;
            http_status = error.http_status;
          }
          w1).1 in
      ground (
        arith,
        wait_failed-Within p error.resume_authority w1,
        wait_failed-Within p error.resume_authority w2,
        after_wait-Within p attempts resume error.resume_authority (env.wait wait_time w2).0
            (env.wait wait_time w2).1 e room,
      )

  delayed-Within :
      (p : Progress env)
      → (attempts : ℕ) → (resume : Bool) → (error : TransferError) → (delay : Option ℕ) → (w : W)
      → attempts ≡ p.attempts + 1
      → attempts < budget
      → TurnWithin env budget p (elim delay [
        | none ↦ ended (raised overflow) w
        | some wait_time ↦ schedule_retry env request budget owner attempts resume error wait_time w
      ])
  unfolding TurnWithin Within
  delayed-Within p attempts resume error none w e room = tt
  delayed-Within p attempts resume error (some wait_time) w e room =
      schedule_retry-Within p attempts resume error wait_time w e room

  after_retryable-Within :
      (calls : ℕ)
      → (p : Progress env) → (error : TransferError) → (w : W) → calls ≤ 1
      → p.attempts < budget
      → TurnWithin env budget p
          (after_retryable env request budget owner calls (p.attempts + calls) p error w)
  unfolding after_retryable TurnWithin Within spent
  after_retryable-Within calls p error w h room = ground (
    arith,
    delayed-Within p (p.attempts + calls) p.allow_resume error
        (selected_delay (p.attempts + calls) error.retry_after) w,
  )

  after_transfer-Within :
      (p : Progress env)
      → (result : TransferResult O) → (calls : ℕ) → (w : W) → calls ≤ 1
      → p.attempts < budget
      → TurnWithin env budget p (after_transfer env request budget owner p result calls w)
  unfolding after_transfer TurnWithin Within spent
  after_transfer-Within p rejected calls w h room = after_rejection-Within calls p w h room
  after_transfer-Within p (retryable error) calls w h room =
      after_retryable-Within calls p error w h room
  after_transfer-Within p _ calls w h room = ground arith

  turn-Within :
      (p : Progress env)
      → (w : W) → p.attempts < budget
      → TurnWithin env budget p (turn env request budget owner p w)
  unfolding turn TurnWithin
  turn-Within p w room =
      grind (arith, end_cancelled-Within, after_transfer-Within, run_transfer-calls env)

  -- From a turn that is within the budget the loop ends within it, if it does from the next one.
  continue-Within :
      (fuel : ℕ)
      → (p : Progress env) → (t : Turn env) → TurnWithin env budget p t
      → ((next : Progress env)
          → (w : W) → next.attempts ≡ p.attempts + 1
          → next.attempts < budget
          → Within budget (attempt_loop env request budget owner fuel next w).0)
      → Within budget
          (continue_loop env request budget owner (attempt_loop env request budget owner fuel) t).0
  unfolding TurnWithin
  continue-Within fuel p (ended result w) h rest = h
  continue-Within fuel p (again next w) (e, room) rest = rest next w e room

  attempt_loop-Within :
      (fuel : ℕ)
      → (p : Progress env) → (w : W) → p.attempts < budget
      → budget < p.attempts + fuel
      → Within budget (attempt_loop env request budget owner fuel p w).0
  unfolding attempt_loop Within
  attempt_loop-Within zero p w room enough = omega arith
  attempt_loop-Within (suc fuel) p w room enough = elim (Bool-cases (ltb p.attempts budget)) [
    | inl e ↦ rw e (
        continue-Within fuel p (turn env request budget owner p w) (turn-Within p w room)
          (λ next w' step room'. attempt_loop-Within fuel next w' room' (omega arith)))
    | inr e ↦ ground arith
  ]

  -- `coordinate_transfer_attempts` ends: it never leaves its loop without a result, and a result
  -- it returns reports at most `max_attempts` attempts.
  pub coordinate-Within :
      (aria2_resume : Bool)
      → (w : W) → Within budget (coordinate env request budget owner aria2_resume w).0
  unfolding coordinate Within
  coordinate-Within aria2_resume w = grind (arith, attempt_loop-Within)
