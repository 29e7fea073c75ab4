-- ===== src/Saga/Coordinator/Forward.antt =====
-- saga/coordinator.go: executeNextStep and the execution of a step.
use nsp_platform.Base.{
  ℕ, suc, String, Bool, true, false, ◌||◌, List, [], ◌∷◌, Option, none, some, if◌then◌else◌,
}
use nsp_platform.Base.Text.{is_empty, texts}
use nsp_platform.Saga.Definition.{Step, sync, async, other, StepStatus, Transaction, TxStatus}
use nsp_platform.Saga.Errors.{
  Error, Result, ok, err, is_error, step_retryable, execution_timeout, sentinel_text,
}
use nsp_platform.Saga.Runtime.{
  Env, M, Wakeup, PollResult, ◌>>=◌, ◌>>◌, pure, attempt, ask, modify, statement, query,
  transaction_timed_out, execution_deadline, execution_timed_out, on_result,
}
use nsp_platform.Saga.Store.Transactions.{update_transaction_status_cas, update_transaction_step}
use nsp_platform.Saga.Store.Steps.{get_step}
use nsp_platform.Saga.Executor.{Context}
use nsp_platform.Saga.Executor.Actions.{execute_step, execute_async_step}
use nsp_platform.Saga.Poller.{ignore, register_notify, unregister_notify}

-- What the loop over the steps finds: a failed step, or the step to work on and whether all have
-- succeeded. A step in progress replaces a pending one found before it.
pub data Scan : Type 0 where
  found_failed : String → Scan
  scanned : Option Step → Bool → Scan

abbrev or_first : Option Step → Step → Option Step
or_first none step = some step
or_first (some s) step = some s

unfoldable pub scan_steps : Option Step → Bool → List Step → Scan
scan_steps current all [] = scanned current all
scan_steps current all (step ∷ steps) =
    let pend = scan_steps (or_first current step) false steps in
    let busy = scan_steps (some step) false steps in
    let done = scan_steps current all steps in
    let rest = scan_steps current false steps in
    elim step.status [
      | StepStatus.pending ↦ pend
      | StepStatus.running ↦ busy
      | StepStatus.polling ↦ busy
      | StepStatus.succeeded ↦ done
      | StepStatus.failed ↦ found_failed step.name
      | _ ↦ rest
    ]

abbrev timeout_text : String
timeout_text = sentinel_text execution_timeout

module _ (env : Env) where
  unfoldable pub update_status_cas : String → TxStatus → TxStatus → String → M Bool
  update_status_cas id expected new last_error = statement env (λ now db_now db.
      let (swapped, db') = update_transaction_status_cas now db_now id expected new last_error db in
      (ok swapped, db'))

  -- A failed swap is only logged.
  unfoldable pub trigger_compensation : Transaction → String → M (Unit {0})
  trigger_compensation tx reason =
      ignore (update_status_cas tx.id TxStatus.running TxStatus.compensating reason)

  -- `triggerCompensation(…); return true`.
  abbrev compensate : Transaction → String → M Bool
  compensate tx reason = trigger_compensation tx reason >> pure true

  -- `if transactionTimedOut(tx) { triggerCompensation(…); return true }`.
  unfoldable pub unless_timed_out : Transaction → M Bool → M Bool
  unless_timed_out tx rest = do
    late ← transaction_timed_out env tx
    if late then compensate tx timeout_text else rest

  -- The same with `|| transactionExecutionTimedOut(ctx)`.
  unfoldable pub unless_late : Transaction → Option ℕ → M Bool → M Bool
  unless_late tx deadline rest = do
    late ← transaction_timed_out env tx
    expired ← execution_timed_out env deadline
    if late || expired then compensate tx timeout_text else rest

  unfoldable pub advance : Transaction → ℕ → M Bool
  advance tx index = do
    ignore (statement env (λ now db_now. update_transaction_step db_now tx.id index))
    pure true

  -- What follows an action that failed.
  unfoldable pub after_error : Transaction → Error → M Bool
  after_error tx e =
      if is_error execution_timeout e
      then compensate tx timeout_text
      else if is_error step_retryable e
      then pure true
      else compensate tx e.message

  unfoldable pub execute_sync_step : Context → Transaction → Step → List Step → M Bool
  execute_sync_step ctx tx step steps = unless_timed_out tx (do
    let deadline = execution_deadline env tx
    result ← attempt (execute_step env (record ctx { deadline = deadline }) tx step steps)
    on_result result (λ _. unless_late tx deadline (advance tx (suc step.index))) (after_error tx))

  unfoldable pub on_wakeup : Transaction → Step → Option ℕ → Wakeup → M Bool
  on_wakeup tx step deadline Wakeup.timed_out = do
    expired ← execution_timed_out env deadline
    late ← transaction_timed_out env tx
    compensate tx (if expired || late then timeout_text else "timeout waiting for async step")
  on_wakeup tx step deadline Wakeup.stopped = pure false
  on_wakeup tx step deadline (Wakeup.notified PollResult.success) = advance tx (suc step.index)
  on_wakeup tx step deadline (Wakeup.notified PollResult.failure) =
      compensate tx "async step failed or timed out"
  on_wakeup tx step deadline (Wakeup.notified PollResult.timeout) =
      compensate tx "async step failed or timed out"
  on_wakeup tx step deadline (Wakeup.notified PollResult.error) = pure true
  on_wakeup tx step deadline (Wakeup.notified PollResult.pending) = pure false

  abbrev failure_reason : Step → String
  failure_reason latest =
      if is_empty latest.last_error then "async step failed" else latest.last_error

  unfoldable pub on_latest : Transaction → Step → Option ℕ → Step → M Bool
  on_latest tx step deadline latest =
      let wait = ask env.wakes >>= on_wakeup tx step deadline in
      elim latest.status [
        | StepStatus.succeeded ↦ unless_late tx deadline (advance tx (suc latest.index))
        | StepStatus.failed ↦ compensate tx (failure_reason latest)
        | StepStatus.compensating ↦ pure true
        | StepStatus.compensated ↦ pure true
        | StepStatus.skipped ↦ pure true
        | _ ↦ wait
      ]

  unfoldable pub on_reloaded : Transaction → Step → Option ℕ → Result (Option Step) → M Bool
  on_reloaded tx step deadline (err e) = pure false
  on_reloaded tx step deadline (ok none) =
      compensate tx (texts ("async step " ∷ step.id ∷ " not found" ∷ []))
  on_reloaded tx step deadline (ok (some latest)) = on_latest tx step deadline latest

  -- The channel is registered before the step is read again, and removed at the return.
  unfoldable pub wait_for_async_step : Transaction → Step → M Bool
  wait_for_async_step tx step = unless_timed_out tx (do
    let deadline = execution_deadline env tx
    modify (register_notify tx.id)
    latest ← attempt (query env (get_step step.id))
    again ← attempt (on_reloaded tx step deadline latest)
    modify (unregister_notify tx.id)
    on_result again pure (λ e. pure false))

  unfoldable pub execute_async : Context → Transaction → Step → List Step → M Bool
  execute_async ctx tx step steps = unless_timed_out tx (do
    let deadline = execution_deadline env tx
    result ← attempt (execute_async_step env (record ctx { deadline = deadline }) tx step steps)
    on_result result (λ _. unless_late tx deadline (wait_for_async_step tx step)) (after_error tx))

  abbrev pub execute : Context → Transaction → Step → List Step → M Bool
  execute ctx tx step steps = elim step.step_type [
    | sync ↦ execute_sync_step ctx tx step steps
    | async ↦ execute_async ctx tx step steps
    | other _ ↦ execute_sync_step ctx tx step steps
  ]

  -- A step that was left running is executed again if its type is exactly "sync".
  unfoldable pub resume : Context → Transaction → Step → List Step → M Bool
  resume ctx tx step steps = elim step.step_type [
    | sync ↦ execute_sync_step ctx tx step steps
    | _ ↦ wait_for_async_step tx step
  ]

  unfoldable pub work_on : Context → Transaction → List Step → Step → M Bool
  work_on ctx tx steps step = elim step.status [
    | StepStatus.pending ↦ execute ctx tx step steps
    | StepStatus.running ↦ resume ctx tx step steps
    | StepStatus.polling ↦ wait_for_async_step tx step
    | _ ↦ pure false
  ]

  unfoldable pub after_scan : Context → Transaction → List Step → Scan → M Bool
  after_scan ctx tx steps (found_failed name) = compensate tx (texts ("step failed: " ∷ name ∷ []))
  after_scan ctx tx steps (scanned current true) =
      unless_timed_out tx
        (do ignore (update_status_cas tx.id TxStatus.running TxStatus.succeeded ""); pure false)
  after_scan ctx tx steps (scanned none false) = pure false
  after_scan ctx tx steps (scanned (some step) false) = work_on ctx tx steps step

  -- The Boolean is whether the drive loop continues.
  unfoldable pub execute_next_step : Context → Transaction → List Step → M Bool
  execute_next_step ctx tx steps =
      unless_timed_out tx (after_scan ctx tx steps (scan_steps none true steps))
