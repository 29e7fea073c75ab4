-- ===== src/Saga/Poller.antt =====
-- saga/poller.go: the notification channels, and the processing of a poll task. The goroutines that
-- a scan starts run here one after the other; what the others write meanwhile is `Env.others`.
pub mod Laws
use nsp_platform.Base.{
  ℕ, String, Bool, true, false, not, List, [], ◌∷◌, ◌++◌, Option, none, some, str_eq, if◌then◌else◌,
}
use nsp_platform.Base.Int.{below}
use nsp_platform.Base.Text.{texts, show_int}
use nsp_platform.Json.{Object}
use nsp_platform.Saga.Definition.{Step, StepStatus, Transaction, PollTask}
use nsp_platform.Saga.Errors.{Error, Result, ok, err, is_error, signing_failed}
use nsp_platform.Saga.Runtime.{
  Env, World, M, PollResult, ◌>>=◌, ◌>>◌, pure, attempt, ask, modify, statement, query, now,
  on_option,
}
use nsp_platform.Saga.JsonPath.{match_poll_result}
use nsp_platform.Saga.Store.Transactions.{get_transaction}
use nsp_platform.Saga.Store.Steps.{
  get_step, get_steps, update_step_response, increment_step_poll_count,
}
use nsp_platform.Saga.Store.PollTasks.{delete_poll_task, release_poll_task, acquire_poll_tasks}
use nsp_platform.Saga.Executor.{Context, seconds_from, set_status, extract_trace_from_payload}
use nsp_platform.Saga.Executor.Actions.{poll}

abbrev pub Channels : Type 0
Channels = List (String × Option PollResult)

abbrev pub has_channel : String → Channels → Bool
has_channel id [] = false
has_channel id ((k, c) ∷ chans) = if str_eq k id then true else has_channel id chans

unfoldable pub remove_channel : String → Channels → Channels
remove_channel id [] = []
remove_channel id ((k, c) ∷ chans) =
    let rest = remove_channel id chans in elim (str_eq k id) [ true ↦ rest | false ↦ (k, c) ∷ rest ]

abbrev offer : PollResult → Option PollResult → Option PollResult
offer result none = some result
offer result (some old) = some old

-- The `select` with a default: a full channel keeps what it holds.
unfoldable pub send_to : String → PollResult → Channels → Channels
send_to id result [] = []
send_to id result ((k, c) ∷ chans) =
    let rest = send_to id result chans in
    elim (str_eq k id) [ true ↦ (k, offer result c) ∷ chans | false ↦ (k, c) ∷ rest ]

unfoldable pub register_notify : String → World → World
register_notify id w =
    if has_channel id w.notify_chan
    then w
    else record w { notify_chan = (id, none) ∷ w.notify_chan }

unfoldable pub unregister_notify : String → World → World
unregister_notify id w = record w { notify_chan = remove_channel id w.notify_chan }

unfoldable pub notify : String → PollResult → World → World
notify id result w = record w { notify_chan = send_to id result w.notify_chan }

abbrev pub ignore : {A : Type 0} → M A → M (Unit {0})
ignore m = attempt m >> pure tt

abbrev pub is_polling : StepStatus → Bool
is_polling StepStatus.polling = true
is_polling _ = false

module _ (env : Env) where
  -- `rehydrateSagaTraceContext` (saga/logging.go): the engine's trace, or else the payload's unless
  -- the engine's context already has a trace id for its logs.
  unfoldable pub rehydrate_saga_trace_context : Transaction → M Context
  rehydrate_saga_trace_context tx =
      on_option env.engine_trace (λ tc. pure (record { trace = some tc; deadline = none }))
        (if env.engine_log_trace then pure (record { trace = none; deadline = none }) else (do
          span ← ask env.new_span_id
          pure (record { trace = extract_trace_from_payload span tx.payload; deadline = none })))

  unfoldable pub release_task : String → M (Unit {0})
  release_task step_id =
      ignore (statement env (λ now db_now db. (ok tt, release_poll_task step_id db)))

  unfoldable pub delete_task : String → M (Unit {0})
  delete_task step_id =
      ignore (statement env (λ now db_now db. (ok tt, delete_poll_task step_id db)))

  unfoldable pub handle_poll_success : PollTask → Step → Object → M (Unit {0})
  handle_poll_success task step response = do
    ignore (statement env (λ now db_now. update_step_response env.codec.jsonb step.id response))
    ignore (set_status env step.id StepStatus.succeeded "")
    delete_task task.step_id
    modify (notify task.transaction_id PollResult.success)

  unfoldable pub handle_poll_failure : PollTask → Step → String → M (Unit {0})
  handle_poll_failure task step last_error = do
    ignore (set_status env step.id StepStatus.failed last_error)
    delete_task task.step_id
    modify (notify task.transaction_id PollResult.failure)

  unfoldable pub handle_poll_timeout : PollTask → Step → M (Unit {0})
  handle_poll_timeout task step = do
    ignore (
        set_status env step.id StepStatus.failed
          (texts ("poll timeout: exceeded " ∷ show_int step.poll_max_times ∷ " attempts" ∷ [])))
    delete_task task.step_id
    modify (notify task.transaction_id PollResult.timeout)

  unfoldable pub schedule_next_poll : PollTask → Step → M (Unit {0})
  schedule_next_poll task step = do
    t ← now env
    ignore (
        statement env
          (λ now db_now. increment_step_poll_count step.id (seconds_from t step.poll_interval_sec)))
    release_task task.step_id

  -- What follows a poll request that was answered.
  unfoldable pub judge_response : PollTask → Step → Object → M (Unit {0})
  judge_response task step response =
      let (success, failure) = match_poll_result env.codec response step in
      if success
      then handle_poll_success task step response
      else if failure
      then handle_poll_failure task step "poll returned failure value"
      else if not (below step.poll_count step.poll_max_times)
      then handle_poll_timeout task step
      else schedule_next_poll task step

  unfoldable pub judge_poll : PollTask → Step → Result Object → M (Unit {0})
  judge_poll task step (ok response) = judge_response task step response
  judge_poll task step (err e) =
      if is_error signing_failed e
      then handle_poll_failure task step e.message
      else release_task task.step_id

  unfoldable pub poll_step :
      PollTask → Step → Context → Transaction → Result (List Step) → M (Unit {0})
  poll_step task step ctx tx (err e) = release_task task.step_id
  poll_step task step ctx tx (ok all_steps) = do
    answer ← attempt (poll env ctx tx step all_steps)
    judge_poll task step answer

  unfoldable pub poll_transaction : PollTask → Step → Result (Option Transaction) → M (Unit {0})
  poll_transaction task step (ok (some tx)) = do
    ctx ← rehydrate_saga_trace_context tx
    steps ← attempt (query env (get_steps task.transaction_id))
    poll_step task step ctx tx steps
  poll_transaction task step _ = release_task task.step_id

  unfoldable pub poll_found : PollTask → Result (Option Step) → M (Unit {0})
  poll_found task (err e) = release_task task.step_id
  poll_found task (ok none) = delete_task task.step_id
  poll_found task (ok (some step)) =
      if is_polling step.status
      then (do
        tx ← attempt (query env (get_transaction task.transaction_id))
        poll_transaction task step tx)
      else delete_task task.step_id

  unfoldable pub process_poll_task : PollTask → M (Unit {0})
  process_poll_task task = do
    step ← attempt (query env (get_step task.step_id))
    poll_found task step

  unfoldable pub process_all : List PollTask → M (Unit {0})
  process_all [] = pure tt
  process_all (task ∷ tasks) = do ignore (process_poll_task task); process_all tasks

  abbrev pub tasks_of : Result (List PollTask) → List PollTask
  tasks_of (ok tasks) = tasks
  tasks_of (err e) = []

  unfoldable pub scan_and_process : ℕ → M (Unit {0})
  scan_and_process batch_size = do
    n ← ask (λ n. n)
    acquired ← attempt (
        statement env (λ now db_now db.
          let (tasks, db') =
            acquire_poll_tasks (env.locked_tasks n) now db_now env.instance_id batch_size db in
          (ok tasks, db')))
    process_all (tasks_of acquired)
