-- ===== src/Saga/Engine/Wait.antt =====
-- saga/engine.go: SubmitAndWait and waitForTransaction. The loop runs on fuel; a round sends at
-- least one query and waits once. A timer fires at some time, whatever its delay.
use nsp_platform.Base.{
  ℕ, zero, suc, ◌*◌, leb, [], ◌∷◌, String, Bool, true, false, Option, some, none, if◌then◌else◌,
  str_eq,
}
use nsp_platform.Base.Text.{is_empty, texts, show_nat}
use nsp_platform.Trace.{TraceContext}
use nsp_platform.Saga.Definition.{SagaDefinition}
use nsp_platform.Saga.Errors.{
  Result, Error, ok, err, prefix, wrap, bare, is_error, canceled, deadline_exceeded,
  transaction_failed, transaction_not_found, transaction_disappeared,
}
use nsp_platform.Saga.Runtime.{Env, World}
use nsp_platform.Saga.Engine.{TransactionStatus, query_transaction, submit_saga}

-- The intervals in milliseconds.
abbrev pub poll_interval : ℕ
poll_interval = 500

abbrev pub query_retry_limit : ℕ
query_retry_limit = 3

abbrev pub query_retry_backoff : ℕ
query_retry_backoff = 500

abbrev pub query_retry_backoff_max : ℕ
query_retry_backoff_max = 2000

-- The loop that doubles the delay for every failure but the first, up to the maximum.
abbrev pub doubled : ℕ → ℕ → ℕ
doubled zero b = b
doubled (suc n) b =
    let rest = doubled n (b * 2) in
    if leb query_retry_backoff_max (b * 2) then query_retry_backoff_max else rest

unfoldable pub backoff : ℕ → ℕ
backoff zero = query_retry_backoff
backoff (suc failures) = doubled failures query_retry_backoff

-- What waitForTransaction returns.
pub record Waited : Type 0 where
  pub status : Option TransactionStatus
  pub error : Option Error

-- `ctx.Err()`.
abbrev pub ctx_error : Bool → Error
ctx_error by_deadline = if by_deadline then bare deadline_exceeded else bare canceled

abbrev pub Loop : Type 0
Loop = World → Option Waited × World

abbrev pub failed_error : String → Error
failed_error text = if is_empty text then bare transaction_failed else wrap transaction_failed text

abbrev pub stop : Option TransactionStatus → Error → Option Waited
stop last e = some (record { status = last; error = some e })

module _ (env : Env) (by_deadline : Bool) where
  -- `waitWithTimer`: whether the context ended before the timer.
  unfoldable pub wait_with_timer : ℕ → World → Bool × World
  wait_with_timer delay w = (env.is_done w.tick, record w { tick = suc w.tick })

  abbrev pub after_wait : Loop → Option TransactionStatus → Bool × World → Option Waited × World
  after_wait again last (true, w) = (stop last (ctx_error by_deadline), w)
  after_wait again last (false, w) = again w

  -- `case` of the status: terminal, or the next round.
  unfoldable pub on_status : Loop → TransactionStatus → Loop
  unfolding wait_with_timer
  on_status again status w =
      if str_eq status.status "succeeded"
      then (some (record { status = some status; error = none }), w)
      else if str_eq status.status "failed"
      then (stop (some status) (failed_error status.last_error), w)
      else after_wait again (some status) (wait_with_timer poll_interval w)

  unfoldable pub on_failure : String → Loop → Option TransactionStatus → ℕ → Error → Loop
  unfolding wait_with_timer backoff
  on_failure id again last failures e w =
      if is_error transaction_not_found e
      then (stop last (wrap transaction_disappeared id), w)
      else if leb query_retry_limit failures
      then (
        stop last (
            prefix
              (texts (
                "failed to query transaction "
                ∷ id
                ∷ " after "
                ∷ show_nat failures
                ∷ " attempts"
                ∷ []))
              e),
        w,
      )
      else after_wait again last (wait_with_timer (backoff failures) w)

  abbrev pub on_query :
      String
      → (Option TransactionStatus → ℕ → Loop)
      → Option TransactionStatus
      → ℕ
      → Result TransactionStatus × World
      → Option Waited × World
  on_query id rest last failures (err e, w) =
      on_failure id (rest last (suc failures)) last (suc failures) e w
  on_query id rest last failures (ok status, w) = on_status (rest (some status) 0) status w

  -- The rounds; none where the fuel is used up.
  unfoldable pub wait_loop : ℕ → String → Option TransactionStatus → ℕ → Loop
  unfolding query_transaction
  wait_loop zero id last failures w = (none, w)
  wait_loop (suc fuel) id last failures w =
      on_query id (wait_loop fuel id) last failures (query_transaction env id w)

  unfoldable pub wait_for_transaction : ℕ → String → Loop
  unfolding wait_loop
  wait_for_transaction fuel id w = wait_loop fuel id none 0 w

  -- What SubmitAndWait returns: the identifier, the status and the error.
  abbrev pub after_submit : ℕ → Result String × World → Option (String × Waited) × World
  after_submit fuel (err e, w) = (some ("", record { status = none; error = some e }), w)
  after_submit fuel (ok id, w) =
      let (r, w') = wait_for_transaction fuel id w in
      (elim r [ none ↦ none | some waited ↦ some (id, waited) ], w')

  unfoldable pub submit_and_wait :
      (ℕ → String)
      → Option TraceContext
      → ℕ
      → Option SagaDefinition
      → World
      → Option (String × Waited) × World
  unfolding submit_saga
  submit_and_wait new_uuid caller_trace fuel def w =
      after_submit fuel (submit_saga env new_uuid caller_trace def w)
