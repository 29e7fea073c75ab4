-- ===== src/Saga/Coordinator/Compensation.antt =====
-- saga/coordinator.go: executeCompensation.
use mathlib.Core.List.{reverse}
use nsp_platform.Base.{String, Bool, true, false, List, [], ◌∷◌, str_eq, if◌then◌else◌}
use nsp_platform.Base.Lists.{select}
use nsp_platform.Saga.Definition.{Step, StepStatus, Transaction, TxStatus}
use nsp_platform.Saga.Runtime.{Env, M, ◌>>=◌, ◌>>◌, pure, attempt, ask, statement, on_result}
use nsp_platform.Saga.Store.Transactions.{update_transaction_status}
use nsp_platform.Saga.Executor.{Context, set_status}
use nsp_platform.Saga.Executor.Compensation.{compensate_step}
use nsp_platform.Saga.Poller.{ignore}

-- The statuses at which a step's action has taken effect, or may have.
abbrev pub needs_compensation : StepStatus → Bool
needs_compensation StepStatus.succeeded = true
needs_compensation StepStatus.polling = true
needs_compensation StepStatus.compensating = true
needs_compensation _ = false

abbrev pub is_pending : StepStatus → Bool
is_pending StepStatus.pending = true
is_pending _ = false

-- The loop from the last step to the first.
unfoldable pub to_compensate : List Step → List Step
to_compensate steps = select (λ step. needs_compensation step.status) (reverse steps)

-- The executor writes the new status into the coordinator's copy of the step, which the templates
-- of the compensations after it read.
abbrev pub mark_compensated : String → List Step → List Step
mark_compensated id [] = []
mark_compensated id (step ∷ steps) =
    (if str_eq step.id id then record step { status = StepStatus.compensated } else step)
    ∷ mark_compensated id steps

-- How the loop over the steps ends: stopped, or through, with whether all were compensated.
pub data Outcome : Type 0 where
  interrupted : Outcome
  through : Bool → Outcome

module _ (env : Env) (ctx : Context) (tx : Transaction) where
  unfoldable pub compensate_all : Bool → List Step → List Step → M Outcome
  compensate_all all steps [] = pure (through all)
  compensate_all all steps (step ∷ rest) = do
    stop ← ask env.is_done
    if stop then pure interrupted else (do
      result ← attempt (compensate_step env ctx tx step steps)
      on_result result (λ _. compensate_all all (mark_compensated step.id steps) rest)
          (λ e. compensate_all false steps rest))

  unfoldable pub skip_all : List Step → M (Unit {0})
  skip_all [] = pure tt
  skip_all (step ∷ steps) = do
    if is_pending step.status
        then ignore (set_status env step.id StepStatus.skipped "")
        else pure tt
    skip_all steps

  abbrev pub closing_text : Bool → String
  closing_text true = "compensation completed"
  closing_text false = "compensation partially failed, manual intervention required"

  unfoldable pub finish : List Step → Outcome → M (Unit {0})
  finish steps interrupted = pure tt
  finish steps (through all) = do
    skip_all steps
    ignore (
        statement env (λ now db_now.
          update_transaction_status now db_now tx.id TxStatus.failed (closing_text all)))

  unfoldable pub execute_compensation : List Step → M (Unit {0})
  execute_compensation steps = do
    outcome ← compensate_all true steps (to_compensate steps)
    finish steps outcome
