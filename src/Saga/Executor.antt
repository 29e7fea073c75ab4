-- ===== src/Saga/Executor.antt =====
-- saga/executor.go: the HTTP calls of a step. `context.Context` is what the code reads of it: the
-- trace context and the execution deadline. The step is the coordinator's copy; of the executor's
-- writes to that copy only the status after a compensation is read again, by the coordinator.
pub mod Actions
pub mod Compensation
use nsp_platform.Base.{
  ℕ, zero, suc, ◌+◌, ◌-◌, ◌*◌, leb, ltb, ◌==◌, String, Bool, true, false, not, ◌&&◌, ◌||◌, List, [],
  ◌∷◌, Option, none, some, str_eq, if◌then◌else◌,
}
use nsp_platform.Base.Int.{ℤ, pos, negsuc, below, is_zero}
use nsp_platform.Base.Text.{is_empty, trim_space, texts, show_int, show_nat}
use nsp_platform.Json.{Value, obj, str, Fields, Object, get_object, get}
use nsp_platform.Trace.{TraceContext, Headers, set_header, inject}
use nsp_platform.Saga.Definition.{Step, StepStatus, Transaction}
use nsp_platform.Saga.Errors.{
  Error, Result, ok, err, plain, prefix, wrap, wrap_behind, wrap_both, step_retryable, step_fatal,
  compensation_failed, signing_failed, execution_timeout, canceled, sentinel_text,
}
use nsp_platform.Saga.Runtime.{
  Env, World, M, Request, Credential, ◌>>=◌, ◌>>◌, pure, raise, attempt, annotate, ask, statement,
  now, execution_timed_out, send, on_result, on_option,
}
use nsp_platform.Saga.JsonPath.{json_value_to_string}
use nsp_platform.Saga.Template.{build_template_data, render_template, render_payload_json}
use nsp_platform.Saga.Store.Steps.{update_step_status, update_step_response, increment_step_retry}
use nsp_platform.Saga.Store.PollTasks.{create_poll_task}

pub record Context : Type 0 where
  pub trace : Option TraceContext
  pub deadline : Option ℕ

abbrev pub second : ℕ
second = 1_000_000_000

-- `time.Now().Add(time.Duration(sec) * time.Second)`; a negative interval goes back in time.
abbrev pub seconds_from : ℕ → ℤ → ℕ
seconds_from t (pos n) = t + n * second
seconds_from t (negsuc n) = t - suc n * second

abbrev string_of : Option Value → String
string_of (some (str s)) = s
string_of _ = ""

-- `extractTraceFromPayload`, given the span id that it generates.
unfoldable pub extract_trace_from_payload : String → Object → Option TraceContext
unfolding get_object
extract_trace_from_payload span payload =
    let trace_id = string_of (get_object "_trace_id" payload) in
    if is_empty trace_id
    then none
    else some (record {
      trace_id = trace_id;
      span_id = span;
      parent_span_id = string_of (get_object "_span_id" payload);
      instance_id = "";
      sampled = true;
    })

abbrev has_code : Option Value → Bool
has_code none = false
has_code (some v) = true

module _ (env : Env) where
  abbrev http_error : ℕ → List String → Error
  http_error status pieces = plain (texts ("HTTP " ∷ show_nat status ∷ ": " ∷ pieces))

  unfoldable pub check_code : ℕ → String → Fields → Result Object
  unfolding get json_value_to_string
  check_code status body m = elim (get "code" m) [
    | none ↦ err (http_error status ("response missing code field: " ∷ body ∷ []))
    | some v ↦
        let code = json_value_to_string env.codec v in
        if str_eq code "0"
        then ok (some m)
        else err (http_error status ("response code=" ∷ code ∷ ": " ∷ body ∷ []))
  ]

  unfoldable pub check_payload : ℕ → String → Option Value → Result Object
  unfolding check_code
  check_payload status body (some (obj m)) = check_code status body m
  check_payload status body none = err (http_error status ("invalid JSON response" ∷ []))
  check_payload status body _ = err (http_error status ("expected JSON object response" ∷ []))

  -- `parseHTTPResponseEnvelope` of a body that could be read.
  unfoldable pub parse_http_response_envelope : ℕ × String → Result Object
  unfolding check_payload trim_space
  parse_http_response_envelope (status, body) =
      let trimmed = trim_space body in
      if ltb status 200 || leb 300 status
      then err (http_error status (body ∷ []))
      else if is_empty trimmed
      then err (http_error status ("empty response body" ∷ []))
      else check_payload status trimmed (env.codec.unmarshal trimmed)

  abbrev pub lift : {A : Type 0} → Result A → M A
  lift (ok a) = pure a
  lift (err e) = raise e

  unfoldable pub set_status : String → StepStatus → String → M (Unit {0})
  set_status id status last_error =
      statement env (λ now db_now. update_step_status now id status last_error)

  -- The trace context of the request: the context's, or else one from the payload.
  unfoldable pub request_trace : Context → Transaction → M (Option TraceContext)
  request_trace ctx tx =
      on_option ctx.trace (λ tc. pure (some tc))
        (do span ← ask env.new_span_id; pure (extract_trace_from_payload span tx.payload))

  unfoldable pub sign_with : String → Request → Option Credential → M Request
  sign_with ak request none =
      raise (wrap signing_failed (texts ("credential not found or disabled for AK " ∷ ak ∷ [])))
  sign_with ak request (some cred) =
      if cred.enabled
      then (do
        signed ← ask (λ n. env.sign n cred request)
        on_result signed pure (λ e. raise (wrap signing_failed e.message)))
      else raise
          (wrap signing_failed (texts ("credential not found or disabled for AK " ∷ ak ∷ [])))

  unfoldable pub sign_request_if_needed : Step → Request → M Request
  unfolding sign_with
  sign_request_if_needed step request =
      if is_empty step.auth_ak
      then pure request
      else on_option env.credentials
          (λ get_by_ak. do
            found ← ask (λ n. get_by_ak n step.auth_ak)
            on_result found (sign_with step.auth_ak request) (λ e. raise (
                wrap signing_failed (
                  texts
                    ("credential lookup failed for AK " ∷ step.auth_ak ∷ ": " ∷ e.message ∷ [])))))
          (pure request)
