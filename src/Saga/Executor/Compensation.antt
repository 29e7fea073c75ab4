-- ===== src/Saga/Executor/Compensation.antt =====
-- saga/executor.go: the compensation of a step, with its attempts.
use nsp_platform.Base.{
  ℕ, zero, suc, String, Bool, true, false, List, [], ◌∷◌, Option, none, some, if◌then◌else◌,
}
use nsp_platform.Base.Int.{ℤ, pos, negsuc, is_zero}
use nsp_platform.Base.Text.{texts, show_int}
use nsp_platform.Json.{Object}
use nsp_platform.Trace.{inject, set_header}
use nsp_platform.Saga.Definition.{Step, StepStatus, Transaction}
use nsp_platform.Saga.Errors.{
  Error, Result, ok, err, plain, wrap_behind, wrap_both, compensation_failed, canceled,
  sentinel_text,
}
use nsp_platform.Saga.Runtime.{
  Env, M, Request, ◌>>=◌, ◌>>◌, pure, raise, attempt, annotate, ask, send, on_result, on_option,
}
use nsp_platform.Saga.Template.{build_template_data, render_template, render_payload_json}
use nsp_platform.Saga.Executor.{
  Context, set_status, request_trace, sign_request_if_needed, parse_http_response_envelope,
}

-- How one attempt ends: by success, by leaving the loop, or by the next round.
pub data Attempt : Type 0 where
  succeeded : Attempt
  stops : Error → Attempt
  again : Error → Attempt

module _ (env : Env) (ctx : Context) (tx : Transaction) (step : Step) where
  unfoldable pub or_compensation_failed : {A : Type 0} → String → Result A → M A
  or_compensation_failed note (ok a) = pure a
  or_compensation_failed note (err e) = do
    let text = texts (note ∷ ": " ∷ e.message ∷ [])
    attempt (set_status env step.id StepStatus.failed text)
    raise (wrap_behind text compensation_failed)

  abbrev pub max_retries : ℤ
  max_retries = if is_zero step.max_retry then pos 3 else step.max_retry

  -- The rounds of `for attempt := 0; attempt <= maxRetries; attempt++`.
  abbrev pub rounds : ℤ → ℕ
  rounds (pos n) = suc n
  rounds (negsuc n) = 0

  abbrev error_text : Option Error → String
  error_text none = "<nil>"
  error_text (some e) = e.message

  abbrev exhausted_error : String → Option Error → Error
  exhausted_error text none = wrap_behind text compensation_failed
  exhausted_error text (some e) = wrap_both text compensation_failed e

  -- Behind the loop.
  unfoldable pub exhausted : Option Error → M (Unit {0})
  exhausted last = do
    let text =
        texts (
          "compensation failed after " ∷ show_int max_retries ∷ " retries: " ∷ error_text last ∷ [])
    attempt (set_status env step.id StepStatus.failed text)
    raise (exhausted_error text last)

  abbrev compensate_request : String → Option String → Request
  compensate_request url body = record {
    method = step.compensate_method;
    url = url;
    body = body;
    headers = set_header "X-Idempotency-Key" (texts (step.id ∷ "-compensate" ∷ [])) (
        set_header "X-Saga-Transaction-Id" tx.id (set_header "Content-Type" "application/json" []));
  }

  abbrev judge : Result Object → Attempt
  judge (ok response) = succeeded
  judge (err e) = again e

  unfoldable pub send_signed : Result Request → M Attempt
  send_signed (err e) = pure (stops e)
  send_signed (ok signed) = do
    sent ← attempt (send env signed)
    on_result sent (λ reply. pure (judge (parse_http_response_envelope env reply)))
        (λ e. pure (again e))

  unfoldable pub compensation_attempt : String → Option String → M Attempt
  compensation_attempt url body =
      let request = compensate_request url body in
      on_option (env.bad_request request) (λ text. pure (again (plain text)))
        (do
          tc ← request_trace env ctx tx
          signing ← attempt (
              sign_request_if_needed env step
                (record request { headers = inject tc request.headers }))
          send_signed signing)

  -- What follows an attempt, given what the next round does.
  unfoldable pub after_attempt : (Error → M (Unit {0})) → Attempt → M (Unit {0})
  after_attempt next succeeded =
      annotate "failed to update step status to compensated"
        (set_status env step.id StepStatus.compensated "")
  after_attempt next (stops e) = exhausted (some e)
  after_attempt next (again e) = next e

  -- The wait before every attempt but the first ends early only by the cancellation.
  unfoldable pub back_off : Bool → M (Unit {0})
  back_off true = pure tt
  back_off false = do
    cancelled ← ask env.is_done
    if cancelled
        then raise (record { wraps = canceled ∷ []; message = sentinel_text canceled })
        else pure tt

  unfoldable pub compensation_loop : ℕ → Bool → Option Error → String → Option String → M (Unit {0})
  compensation_loop zero first last url body = exhausted last
  compensation_loop (suc n) first last url body = do
    back_off first
    outcome ← compensation_attempt url body
    after_attempt (λ e. compensation_loop n false (some e) url body) outcome

  unfoldable pub compensate_step : List Step → M (Unit {0})
  compensate_step all_steps = do
    annotate "failed to update step status to compensating"
        (set_status env step.id StepStatus.compensating "")
    let template_data = build_template_data tx all_steps step
    url ←
        or_compensation_failed "failed to render compensate URL"
          (render_template env.codec step.compensate_url template_data)
    body ←
        or_compensation_failed "failed to render compensate payload"
          (render_payload_json env.codec step.compensate_payload template_data)
    compensation_loop (rounds max_retries) true none url body
