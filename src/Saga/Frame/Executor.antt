-- ===== src/Saga/Frame/Executor.antt =====
-- The executor writes no transaction: whatever the environment does, its actions follow every
-- relation that allows changes outside saga_transactions.
use nsp_platform.Base.{arith, ℕ, suc, String, ◌≡◌, List, Option, none, some}
use nsp_platform.Base.Int.{below}
use nsp_platform.Base.Text.{is_empty}
use nsp_platform.Json.{Object}
use nsp_platform.Saga.Definition.{Step, StepStatus, Transaction}
use nsp_platform.Saga.Errors.{Error, Result, ok, err}
use nsp_platform.Saga.Store.Tables.{Db}
use nsp_platform.Saga.Store.Steps.{
  update_step, update_step_status, update_step_response, increment_step_retry,
  increment_step_poll_count,
}
use nsp_platform.Saga.Store.PollTasks.{create_poll_task}
use nsp_platform.Saga.Runtime.{
  Env, Request, Credential, attempt, annotate, statement, now, execution_timed_out,
  transaction_timed_out,
}
use nsp_platform.Saga.Executor.{
  Context, lift, set_status, request_trace, sign_with, sign_request_if_needed,
}
use nsp_platform.Saga.Executor.Actions.{
  or_failed, handle_http_error, or_http_error, or_unsigned, perform_action, execute_step,
  execute_async_step, poll,
}
use nsp_platform.Saga.Frame.{
  Rely, Follows, Follows-pure, Follows-raise, Follows-ask, Follows-send, Follows-bind,
  Follows-attempt, Follows-annotate, Follows-if, Follows-framed, Follows-on_result,
  Follows-on_option, follows_rules,
}

update_step-framed :
    (id : String) (f : Step → Step) (db : Db)
    → (update_step id f db).1.transactions ≡ db.transactions
unfolding update_step
update_step-framed id f db = ground arith

pub increment_step_poll_count-framed :
    (id : String) (next : ℕ) (db : Db)
    → (increment_step_poll_count id next db).1.transactions ≡ db.transactions
unfolding increment_step_poll_count
increment_step_poll_count-framed id next db = ground arith

create_poll_task-framed :
    (id tx_id : String) (next : ℕ) (db : Db)
    → (create_poll_task id tx_id next db).1.transactions ≡ db.transactions
unfolding create_poll_task
create_poll_task-framed id tx_id next db = ground arith

module _ {env : Env} {R : Db → Db → Type 0} (rely : Rely env R) where
  pub Follows-set_status :
      (id : String) (status : StepStatus) (e : String) → Follows R (set_status env id status e)
  unfolding set_status update_step_status
  Follows-set_status id status e = Follows-framed rely _ (λ now db_now. update_step-framed id _)

  pub Follows-now : Follows R (now env)
  unfolding now
  Follows-now = Follows-ask rely _

  pub Follows-transaction_timed_out : (tx : Transaction) → Follows R (transaction_timed_out env tx)
  unfolding transaction_timed_out
  Follows-transaction_timed_out tx = record { at = λ w. rely.R_refl w.db }

  pub Follows-execution_timed_out :
      (deadline : Option ℕ) → Follows R (execution_timed_out env deadline)
  unfolding execution_timed_out
  Follows-execution_timed_out none = Follows-ask rely _
  Follows-execution_timed_out (some deadline) = Follows-ask rely _

  Follows-lift : {A : Type 0} (r : Result A) → Follows R (lift env r)
  Follows-lift (ok a) = Follows-pure rely a
  Follows-lift (err e) = Follows-raise rely e

  pub Follows-response :
      (id : String) (f : Object → Object) (response : Object)
      → Follows R (statement env (λ now db_now. update_step_response f id response))
  unfolding update_step_response
  Follows-response id f response = Follows-framed rely _ (λ now db_now. update_step-framed id _)

  Follows-increment :
      (id : String) → Follows R (statement env (λ now db_now. increment_step_retry id))
  unfolding increment_step_retry
  Follows-increment id = Follows-framed rely _ (λ now db_now. update_step-framed id _)

  ruleset basic_rules = (
    follows_rules, Follows-set_status, Follows-now, Follows-execution_timed_out, Follows-lift,
    Follows-response, Follows-increment,
  )

  pub Follows-request_trace :
      (ctx : Context) (tx : Transaction) → Follows R (request_trace env ctx tx)
  unfolding request_trace
  Follows-request_trace ctx tx = search basic_rules depth 9

  -- The status that a failing step gets; a failure to write it is dropped or annotated.
  pub Follows-mark :
      (id : String) (status : StepStatus) (e : String)
      → Follows R (attempt (set_status env id status e))
  Follows-mark id status e = Follows-attempt rely _ (Follows-set_status id status e)

  pub Follows-noted :
      (text id : String) (status : StepStatus) (e : String)
      → Follows R (annotate text (set_status env id status e))
  Follows-noted text id status e = Follows-annotate rely text _ (Follows-set_status id status e)

  Follows-handle_http_error :
      {A : Type 0} (ctx : Context) (step : Step) (e : Error)
      → Follows R (handle_http_error env {A = A} ctx step e)
  unfolding handle_http_error
  Follows-handle_http_error ctx step e =
      Follows-bind rely _ _ (Follows-execution_timed_out ctx.deadline) λ timed.
        Follows-if rely timed _ _
          (Follows-bind rely _ _ (Follows-noted _ _ _ _) λ _. Follows-raise rely _)
          (Follows-bind rely _ _ (Follows-attempt rely _ (Follows-increment step.id)) λ _.
            Follows-if rely (below (suc step.retry_count) step.max_retry) _ _
              (Follows-bind rely _ _ (Follows-mark _ _ _) λ _. Follows-raise rely _)
              (Follows-bind rely _ _ (Follows-mark _ _ _) λ _. Follows-raise rely _))

  Follows-or_failed :
      {A : Type 0} (step : Step) (note text : String) (r : Result A)
      → Follows R (or_failed env step note text r)
  unfolding or_failed
  Follows-or_failed step note text (ok a) = Follows-pure rely a
  Follows-or_failed step note text (err e) =
      Follows-bind rely _ _ (Follows-mark _ _ _) λ _. Follows-raise rely _

  Follows-or_http_error :
      {A : Type 0} (ctx : Context) (step : Step) (r : Result A)
      → Follows R (or_http_error env ctx step r)
  unfolding or_http_error
  Follows-or_http_error ctx step (ok a) = Follows-pure rely a
  Follows-or_http_error ctx step (err e) = Follows-handle_http_error ctx step e

  Follows-or_unsigned : (step : Step) (r : Result Request) → Follows R (or_unsigned env step r)
  unfolding or_unsigned
  Follows-or_unsigned step (ok request) = Follows-pure rely request
  Follows-or_unsigned step (err e) =
      Follows-bind rely _ _ (Follows-noted _ _ _ _) λ _. Follows-raise rely _

  Follows-sign_with :
      (ak : String) (request : Request) (c : Option Credential)
      → Follows R (sign_with env ak request c)
  unfolding sign_with
  Follows-sign_with ak request none = Follows-raise rely _
  Follows-sign_with ak request (some cred) =
      Follows-if rely cred.enabled _ _
        (Follows-bind rely _ _ (Follows-ask rely _) λ signed.
          Follows-on_result signed _ _ (λ r. Follows-pure rely r) (λ e. Follows-raise rely _))
        (Follows-raise rely _)

  pub Follows-sign_request_if_needed :
      (step : Step) (request : Request) → Follows R (sign_request_if_needed env step request)
  unfolding sign_request_if_needed sign_with
  Follows-sign_request_if_needed step request =
      Follows-if rely (is_empty step.auth_ak) _ _ (Follows-pure rely request) (
        Follows-on_option env.credentials _ _
          (λ get_by_ak. Follows-bind rely _ _ (Follows-ask rely _) λ found.
            Follows-on_result found _ _ (λ c. Follows-sign_with step.auth_ak request c)
              (λ e. Follows-raise rely _))
          (Follows-pure rely request))

  Follows-perform_action :
      (ctx : Context) (tx : Transaction) (step : Step) (all_steps : List Step)
      → Follows R (perform_action env ctx tx step all_steps)
  unfolding perform_action
  Follows-perform_action ctx tx step all_steps = Follows-bind rely _ _ (Follows-noted _ _ _ _) λ _.
      Follows-bind rely _ _ (Follows-or_failed _ _ _ _) λ url.
        Follows-bind rely _ _ (Follows-or_failed _ _ _ _) λ body.
          Follows-bind rely _ _ (Follows-or_failed _ _ _ _) λ request.
            Follows-bind rely _ _ (Follows-request_trace ctx tx) λ tc.
              Follows-bind rely _ _ (Follows-attempt rely _ (Follows-sign_request_if_needed step _))
                λ signing. Follows-bind rely _ _ (Follows-or_unsigned step signing) λ signed.
                  Follows-bind rely _ _ (Follows-attempt rely _ (Follows-send rely signed)) λ sent.
                    Follows-bind rely _ _ (Follows-or_http_error ctx step sent) λ reply.
                      Follows-bind rely _ _ (Follows-or_http_error ctx step _) λ response.
                        Follows-bind rely _ _
                          (Follows-annotate rely _ _ (Follows-response step.id _ response))
                          λ _. Follows-pure rely response

  pub Follows-execute_step :
      (ctx : Context) (tx : Transaction) (step : Step) (all_steps : List Step)
      → Follows R (execute_step env ctx tx step all_steps)
  unfolding execute_step
  Follows-execute_step ctx tx step all_steps =
      Follows-bind rely _ _ (Follows-perform_action ctx tx step all_steps)
        λ _. Follows-noted _ _ _ _

  Follows-create_poll_task :
      (id tx_id : String) (next : ℕ)
      → Follows R (statement env (λ now db_now. create_poll_task id tx_id next))
  Follows-create_poll_task id tx_id next =
      Follows-framed rely _ (λ now db_now. create_poll_task-framed id tx_id next)

  pub Follows-execute_async_step :
      (ctx : Context) (tx : Transaction) (step : Step) (all_steps : List Step)
      → Follows R (execute_async_step env ctx tx step all_steps)
  unfolding execute_async_step
  Follows-execute_async_step ctx tx step all_steps =
      Follows-bind rely _ _ (Follows-perform_action ctx tx step all_steps) λ _.
        Follows-bind rely _ _ Follows-now λ t.
          Follows-bind rely _ _
            (Follows-annotate rely _ _ (Follows-create_poll_task step.id tx.id _))
            λ _. Follows-noted _ _ _ _

  pub Follows-poll :
      (ctx : Context) (tx : Transaction) (step : Step) (all_steps : List Step)
      → Follows R (poll env ctx tx step all_steps)
  unfolding poll
  Follows-poll ctx tx step all_steps =
      Follows-bind rely _ _ (Follows-annotate rely _ _ (Follows-lift _)) λ url.
        Follows-bind rely _ _ (Follows-annotate rely _ _ (Follows-lift _)) λ request.
          Follows-bind rely _ _ (Follows-request_trace ctx tx) λ tc.
            Follows-bind rely _ _ (Follows-sign_request_if_needed step _) λ signed.
              Follows-bind rely _ _ (Follows-annotate rely _ _ (Follows-send rely signed))
                λ reply. Follows-lift _
