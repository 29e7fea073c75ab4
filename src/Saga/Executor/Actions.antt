-- ===== src/Saga/Executor/Actions.antt =====
-- saga/executor.go: the forward action of a step, its retries, and the poll request.
use nsp_platform.Base.{suc, String, List, [], ◌∷◌, Option, none, some, if◌then◌else◌}
use nsp_platform.Base.Int.{below}
use nsp_platform.Base.Text.{is_empty, texts}
use nsp_platform.Json.{Object}
use nsp_platform.Trace.{inject, set_header}
use nsp_platform.Saga.Definition.{Step, StepStatus, Transaction}
use nsp_platform.Saga.Errors.{
  Error, Result, ok, err, plain, prefix, wrap, step_retryable, step_fatal, execution_timeout,
}
use nsp_platform.Saga.Runtime.{
  Env, M, Request, ◌>>=◌, ◌>>◌, pure, raise, attempt, annotate, statement, now, execution_timed_out,
  send,
}
use nsp_platform.Saga.Template.{build_template_data, render_template, render_payload_json}
use nsp_platform.Saga.Store.Steps.{update_step_response, increment_step_retry}
use nsp_platform.Saga.Store.PollTasks.{create_poll_task}
use nsp_platform.Saga.Executor.{
  Context, seconds_from, lift, set_status, request_trace, sign_request_if_needed,
  parse_http_response_envelope,
}

module _ (env : Env) where
  abbrev bad_request : Request → Result Request
  bad_request request = elim (env.bad_request request) [
    | none ↦ ok request
    | some text ↦ err (plain text)
  ]

  -- Where an error before the request marks the step as failed; that write may fail unnoticed.
  unfoldable pub or_failed : {A : Type 0} → Step → String → String → Result A → M A
  or_failed step note text (ok a) = pure a
  or_failed step note text (err e) = do
    attempt (set_status env step.id StepStatus.failed (texts (note ∷ ": " ∷ e.message ∷ [])))
    raise (prefix text e)

  unfoldable pub handle_http_error : {A : Type 0} → Context → Step → Error → M A
  handle_http_error ctx step e = do
    timed ← execution_timed_out env ctx.deadline
    if timed
        then (do
          annotate "failed to update step status after transaction timeout"
              (set_status env step.id StepStatus.failed (wrap execution_timeout e.message).message)
          raise (wrap execution_timeout e.message))
        else (do
          attempt (statement env (λ now db_now. increment_step_retry step.id))
          if below (suc step.retry_count) step.max_retry
              then (do
                attempt (set_status env step.id StepStatus.pending e.message)
                raise (wrap step_retryable e.message))
              else (do
                attempt (set_status env step.id StepStatus.failed e.message)
                raise (wrap step_fatal e.message)))

  -- An error of the client or of the envelope.
  unfoldable pub or_http_error : {A : Type 0} → Context → Step → Result A → M A
  or_http_error ctx step (ok a) = pure a
  or_http_error ctx step (err e) = handle_http_error ctx step e

  -- A signing error marks the step as failed for good.
  unfoldable pub or_unsigned : Step → Result Request → M Request
  or_unsigned step (ok request) = pure request
  or_unsigned step (err e) = do
    annotate "failed to update step status after signing error"
        (set_status env step.id StepStatus.failed e.message)
    raise (wrap step_fatal e.message)

  abbrev build_request : Transaction → String → String → String → Option String → Request
  build_request tx method key url body = record {
    method = method;
    url = url;
    body = body;
    headers = set_header "X-Idempotency-Key" key (
        set_header "X-Saga-Transaction-Id" tx.id (set_header "Content-Type" "application/json" []));
  }

  -- What ExecuteStep and ExecuteAsyncStep have in common, up to the stored response.
  unfoldable pub perform_action : Context → Transaction → Step → List Step → M Object
  perform_action ctx tx step all_steps = do
    annotate "failed to update step status to running"
        (set_status env step.id StepStatus.running "")
    let template_data = build_template_data tx all_steps step
    url ←
        or_failed step "failed to render URL" "failed to render action URL"
          (render_template env.codec step.action_url template_data)
    body ←
        or_failed step "failed to render payload" "failed to render action payload"
          (render_payload_json env.codec step.action_payload template_data)
    request ←
        or_failed step "failed to create request" "failed to create HTTP request"
          (bad_request (build_request tx step.action_method step.id url body))
    tc ← request_trace env ctx tx
    signing ←
        attempt
          (sign_request_if_needed env step (record request { headers = inject tc request.headers }))
    signed ← or_unsigned step signing
    sent ← attempt (send env signed)
    reply ← or_http_error ctx step sent
    response ← or_http_error ctx step (parse_http_response_envelope env reply)
    annotate "failed to update step response"
        (statement env (λ now db_now. update_step_response env.codec.jsonb step.id response))
    pure response

  unfoldable pub execute_step : Context → Transaction → Step → List Step → M (Unit {0})
  execute_step ctx tx step all_steps = do
    perform_action ctx tx step all_steps
    annotate "failed to update step status to succeeded"
        (set_status env step.id StepStatus.succeeded "")

  unfoldable pub execute_async_step : Context → Transaction → Step → List Step → M (Unit {0})
  execute_async_step ctx tx step all_steps = do
    perform_action ctx tx step all_steps
    t ← now env
    annotate "failed to create poll task" (
        statement env
          (λ now db_now. create_poll_task step.id tx.id (seconds_from t step.poll_interval_sec)))
    annotate "failed to update step status to polling"
        (set_status env step.id StepStatus.polling "")

  abbrev or_get : String → String
  or_get method = if is_empty method then "GET" else method

  unfoldable pub poll : Context → Transaction → Step → List Step → M Object
  poll ctx tx step all_steps = do
    let template_data = build_template_data tx all_steps step
    url ←
        annotate "failed to render poll URL"
          (lift env (render_template env.codec step.poll_url template_data))
    request ← annotate "failed to create poll request" (
        lift env (
          bad_request (record {
            method = or_get step.poll_method;
            url = url;
            body = none;
            headers = set_header "X-Saga-Transaction-Id" tx.id [];
          })))
    tc ← request_trace env ctx tx
    signed ←
        sign_request_if_needed env step (record request { headers = inject tc request.headers })
    reply ← annotate "poll request failed" (send env signed)
    lift env (parse_http_response_envelope env reply)
