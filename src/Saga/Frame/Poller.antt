-- ===== src/Saga/Frame/Poller.antt =====
-- The poller writes no transaction.
use nsp_platform.Base.{ℕ, String, refl, not, List, [], ◌∷◌, Option, none, some}
use nsp_platform.Base.Int.{below}
use nsp_platform.Json.{Object}
use nsp_platform.Saga.Definition.{Step, Transaction, PollTask}
use nsp_platform.Saga.Errors.{Result, ok, err, is_error, signing_failed}
use nsp_platform.Saga.Store.Tables.{Db, TxRow}
use nsp_platform.Saga.Store.PollTasks.{delete_poll_task, release_poll_task, acquire_poll_tasks}
use nsp_platform.Saga.JsonPath.{match_poll_result}
use nsp_platform.Saga.Runtime.{Env, World, PollResult, modify}
use nsp_platform.Saga.Executor.{Context}
use nsp_platform.Saga.Poller.{
  is_polling, notify, rehydrate_saga_trace_context, release_task, delete_task, handle_poll_success,
  handle_poll_failure, handle_poll_timeout, schedule_next_poll, judge_response, judge_poll,
  poll_step, poll_transaction, poll_found, process_poll_task, process_all, tasks_of,
  scan_and_process,
}
use nsp_platform.Saga.Frame.{
  Follows-ignore, Rely, Follows, Follows-pure, Follows-ask, Follows-modify, Follows-bind,
  Follows-attempt, Follows-if, Follows-query, Follows-framed, Follows-on_option,
}
use nsp_platform.Saga.Frame.Executor.{
  increment_step_poll_count-framed, Follows-set_status, Follows-now, Follows-response, Follows-poll,
}

module _ {env : Env} {R : Db → Db → Type 0} (rely : Rely env R) where
  pub Follows-rehydrate : (tx : Transaction) → Follows R (rehydrate_saga_trace_context env tx)
  unfolding rehydrate_saga_trace_context
  Follows-rehydrate tx =
      Follows-on_option env.engine_trace _ _ (λ tc. Follows-pure rely _)
        (Follows-if rely env.engine_log_trace _ _ (Follows-pure rely _)
          (Follows-bind rely _ _ (Follows-ask rely _) λ span. Follows-pure rely _))

  Follows-release_task : (step_id : String) → Follows R (release_task env step_id)
  unfolding release_task release_poll_task
  Follows-release_task step_id =
      Follows-ignore rely _ (Follows-framed rely _ (λ now db_now db. refl))

  Follows-delete_task : (step_id : String) → Follows R (delete_task env step_id)
  unfolding delete_task delete_poll_task
  Follows-delete_task step_id =
      Follows-ignore rely _ (Follows-framed rely _ (λ now db_now db. refl))

  Follows-notify : (id : String) (result : PollResult) → Follows R (modify (notify id result))
  unfolding notify
  Follows-notify id result = Follows-modify rely _ (λ w. refl)

  Follows-handle_poll_success :
      (task : PollTask) (step : Step) (response : Object)
      → Follows R (handle_poll_success env task step response)
  unfolding handle_poll_success
  Follows-handle_poll_success task step response =
      Follows-bind rely _ _ (Follows-ignore rely _ (Follows-response rely step.id _ response)) λ _.
        Follows-bind rely _ _ (Follows-ignore rely _ (Follows-set_status rely _ _ _))
          λ _. Follows-bind rely _ _ (Follows-delete_task task.step_id) λ _. Follows-notify _ _

  Follows-handle_poll_failure :
      (task : PollTask) (step : Step) (e : String) → Follows R (handle_poll_failure env task step e)
  unfolding handle_poll_failure
  Follows-handle_poll_failure task step e =
      Follows-bind rely _ _ (Follows-ignore rely _ (Follows-set_status rely _ _ _))
        λ _. Follows-bind rely _ _ (Follows-delete_task task.step_id) λ _. Follows-notify _ _

  Follows-handle_poll_timeout :
      (task : PollTask) (step : Step) → Follows R (handle_poll_timeout env task step)
  unfolding handle_poll_timeout
  Follows-handle_poll_timeout task step =
      Follows-bind rely _ _ (Follows-ignore rely _ (Follows-set_status rely _ _ _))
        λ _. Follows-bind rely _ _ (Follows-delete_task task.step_id) λ _. Follows-notify _ _

  Follows-schedule_next_poll :
      (task : PollTask) (step : Step) → Follows R (schedule_next_poll env task step)
  unfolding schedule_next_poll
  Follows-schedule_next_poll task step = Follows-bind rely _ _ (Follows-now rely) λ t.
      Follows-bind rely _ _
        (Follows-ignore rely _
          (Follows-framed rely _ (λ now db_now. increment_step_poll_count-framed step.id _)))
        λ _. Follows-release_task task.step_id

  Follows-judge_response :
      (task : PollTask) (step : Step) (response : Object)
      → Follows R (judge_response env task step response)
  unfolding judge_response
  Follows-judge_response task step response =
      Follows-if rely (match_poll_result env.codec response step).0 _ _
        (Follows-handle_poll_success task step response)
        (Follows-if rely (match_poll_result env.codec response step).1 _ _
          (Follows-handle_poll_failure task step _)
          (Follows-if rely (not (below step.poll_count step.poll_max_times)) _ _
            (Follows-handle_poll_timeout task step) (Follows-schedule_next_poll task step)))

  Follows-judge_poll :
      (task : PollTask) (step : Step) (r : Result Object) → Follows R (judge_poll env task step r)
  unfolding judge_poll
  Follows-judge_poll task step (ok response) = Follows-judge_response task step response
  Follows-judge_poll task step (err e) =
      Follows-if rely (is_error signing_failed e) _ _ (Follows-handle_poll_failure task step _)
        (Follows-release_task task.step_id)

  Follows-poll_step :
      (task : PollTask) (step : Step) (ctx : Context) (tx : Transaction) (r : Result (List Step))
      → Follows R (poll_step env task step ctx tx r)
  unfolding poll_step
  Follows-poll_step task step ctx tx (err e) = Follows-release_task task.step_id
  Follows-poll_step task step ctx tx (ok all_steps) =
      Follows-bind rely _ _ (Follows-attempt rely _ (Follows-poll rely ctx tx step all_steps))
        (Follows-judge_poll task step)

  Follows-poll_transaction :
      (task : PollTask) (step : Step) (r : Result (Option Transaction))
      → Follows R (poll_transaction env task step r)
  unfolding poll_transaction
  Follows-poll_transaction task step (ok (some tx)) =
      Follows-bind rely _ _ (Follows-rehydrate tx) λ ctx.
        Follows-bind rely _ _ (Follows-attempt rely _ (Follows-query rely _))
          (Follows-poll_step task step ctx tx)
  Follows-poll_transaction task step (ok none) = Follows-release_task task.step_id
  Follows-poll_transaction task step (err e) = Follows-release_task task.step_id

  Follows-poll_found :
      (task : PollTask) (r : Result (Option Step)) → Follows R (poll_found env task r)
  unfolding poll_found
  Follows-poll_found task (err e) = Follows-release_task task.step_id
  Follows-poll_found task (ok none) = Follows-delete_task task.step_id
  Follows-poll_found task (ok (some step)) =
      Follows-if rely (is_polling step.status) _ _
        (Follows-bind rely _ _ (Follows-attempt rely _ (Follows-query rely _))
          (Follows-poll_transaction task step))
        (Follows-delete_task task.step_id)

  Follows-process_poll_task : (task : PollTask) → Follows R (process_poll_task env task)
  unfolding process_poll_task
  Follows-process_poll_task task =
      Follows-bind rely _ _ (Follows-attempt rely _ (Follows-query rely _))
        (Follows-poll_found task)

  Follows-process_all : (tasks : List PollTask) → Follows R (process_all env tasks)
  unfolding process_all
  Follows-process_all [] = Follows-pure rely tt
  Follows-process_all (task ∷ tasks) =
      Follows-bind rely _ _ (Follows-ignore rely _ (Follows-process_poll_task task))
        λ _. Follows-process_all tasks

  pub Follows-scan_and_process : (batch_size : ℕ) → Follows R (scan_and_process env batch_size)
  unfolding scan_and_process acquire_poll_tasks
  Follows-scan_and_process batch_size = Follows-bind rely _ _ (Follows-ask rely _) λ n.
      Follows-bind rely _ _ (Follows-attempt rely _ (Follows-framed rely _ (λ now db_now db. refl)))
        λ acquired. Follows-process_all (tasks_of env acquired)

-- What the poller, beside what other sessions write, does to the transactions: nothing. So a scan of
-- the poller keeps every property of saga_transactions that the other sessions keep.
pub scan_and_process-framed :
    (env : Env) (P : List TxRow → Type 0)
    → ((n : ℕ) (db : Db) → P db.transactions → P (env.others n db).transactions)
    → (batch_size : ℕ) (w : World) → P w.db.transactions
    → P (scan_and_process env batch_size w).1.db.transactions
scan_and_process-framed env P others batch_size w = (Follows-scan_and_process rely batch_size).at w
  where
    rely : Rely env (λ a b. P a.transactions → P b.transactions)
    rely = record {
      R_refl = λ a h. h;
      R_trans = λ a b c h k p. k (h p);
      R_others = others;
      R_frame = λ a b same p. rw same p;
    }
