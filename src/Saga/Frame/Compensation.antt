-- ===== src/Saga/Frame/Compensation.antt =====
-- The compensation of a step writes no transaction either.
use nsp_platform.Base.{ℕ, zero, suc, String, Bool, true, false, List, Option, none, some}
use nsp_platform.Saga.Definition.{Step, Transaction}
use nsp_platform.Saga.Errors.{Error, Result, ok, err}
use nsp_platform.Saga.Store.Tables.{Db}
use nsp_platform.Saga.Runtime.{Env, M, Request}
use nsp_platform.Saga.Executor.{Context}
use nsp_platform.Saga.Executor.Compensation.{
  Attempt, or_compensation_failed, exhausted, send_signed, compensation_attempt, after_attempt,
  back_off, compensation_loop, compensate_step,
}
use nsp_platform.Saga.Frame.{
  Rely, Follows, Follows-pure, Follows-raise, Follows-ask, Follows-send, Follows-bind,
  Follows-attempt, Follows-if, Follows-on_result, Follows-on_option,
}
use nsp_platform.Saga.Frame.Executor.{
  Follows-mark, Follows-noted, Follows-request_trace, Follows-sign_request_if_needed,
}

module _ {env : Env} {R : Db → Db → Type 0} (rely : Rely env R) (ctx : Context) (tx : Transaction)
    (step : Step) where
  Follows-or_compensation_failed :
      {A : Type 0} (note : String) (r : Result A)
      → Follows R (or_compensation_failed env ctx tx step note r)
  unfolding or_compensation_failed
  Follows-or_compensation_failed note (ok a) = Follows-pure rely a
  Follows-or_compensation_failed note (err e) =
      Follows-bind rely _ _ (Follows-mark rely _ _ _) λ _. Follows-raise rely _

  Follows-exhausted : (last : Option Error) → Follows R (exhausted env ctx tx step last)
  unfolding exhausted
  Follows-exhausted last = Follows-bind rely _ _ (Follows-mark rely _ _ _) λ _. Follows-raise rely _

  Follows-send_signed : (r : Result Request) → Follows R (send_signed env ctx tx step r)
  unfolding send_signed
  Follows-send_signed (err e) = Follows-pure rely _
  Follows-send_signed (ok signed) =
      Follows-bind rely _ _ (Follows-attempt rely _ (Follows-send rely signed))
        λ sent. Follows-on_result sent _ _ (λ reply. Follows-pure rely _) (λ e. Follows-pure rely _)

  Follows-compensation_attempt :
      (url : String) (body : Option String)
      → Follows R (compensation_attempt env ctx tx step url body)
  unfolding compensation_attempt
  Follows-compensation_attempt url body =
      Follows-on_option _ _ _ (λ text. Follows-pure rely _)
        (Follows-bind rely _ _ (Follows-request_trace rely ctx tx) λ tc.
          Follows-bind rely _ _
            (Follows-attempt rely _ (Follows-sign_request_if_needed rely step _))
            λ signing. Follows-send_signed signing)

  Follows-after_attempt :
      (next : Error → M (Unit {0}))
      → ((e : Error) → Follows R (next e))
      → (outcome : Attempt) → Follows R (after_attempt env ctx tx step next outcome)
  unfolding after_attempt
  Follows-after_attempt next h Attempt.succeeded = Follows-noted rely _ _ _ _
  Follows-after_attempt next h (Attempt.stops e) = Follows-exhausted (some e)
  Follows-after_attempt next h (Attempt.again e) = h e

  Follows-back_off : (first : Bool) → Follows R (back_off env ctx tx step first)
  unfolding back_off
  Follows-back_off true = Follows-pure rely tt
  Follows-back_off false =
      Follows-bind rely _ _ (Follows-ask rely _)
        λ cancelled. Follows-if rely cancelled _ _ (Follows-raise rely _) (Follows-pure rely tt)

  Follows-compensation_loop :
      (n : ℕ) (first : Bool) (last : Option Error) (url : String) (body : Option String)
      → Follows R (compensation_loop env ctx tx step n first last url body)
  unfolding compensation_loop
  Follows-compensation_loop zero first last url body = Follows-exhausted last
  Follows-compensation_loop (suc n) first last url body =
      Follows-bind rely _ _ (Follows-back_off first) λ _.
        Follows-bind rely _ _ (Follows-compensation_attempt url body) λ outcome.
          Follows-after_attempt _ (λ e. Follows-compensation_loop n false (some e) url body) outcome

  pub Follows-compensate_step :
      (all_steps : List Step) → Follows R (compensate_step env ctx tx step all_steps)
  unfolding compensate_step
  Follows-compensate_step all_steps = Follows-bind rely _ _ (Follows-noted rely _ _ _ _) λ _.
      Follows-bind rely _ _ (Follows-or_compensation_failed _ _) λ url.
        Follows-bind rely _ _ (Follows-or_compensation_failed _ _)
          λ body. Follows-compensation_loop _ true none url body
