-- ===== src/Saga/Store/Steps.antt =====
-- saga/store.go: the operations on saga_steps.
use nsp_platform.Base.{ℕ, ◌+◌, String, List, [], ◌∷◌, Option, some, str_eq, if◌then◌else◌}
use nsp_platform.Base.Lists.{select, find_row, update_where, any_row, order_by}
use nsp_platform.Base.Text.{texts}
use nsp_platform.Json.{Object}
use nsp_platform.Saga.Definition.{Step, StepStatus}
use nsp_platform.Saga.Errors.{Result, ok, err, plain}
use nsp_platform.Saga.Store.Tables.{Db, step_is, task_of, step_start_time, step_finish_time}

abbrev step_not_found : String → Result (Unit {0})
step_not_found id = err (plain (texts ("step not found: " ∷ id ∷ [])))

unfoldable pub get_steps : String → Db → List Step
get_steps tx_id db =
    order_by (λ step. step.index) (select (λ step. str_eq step.transaction_id tx_id) db.steps)

unfoldable pub get_step : String → Db → Option Step
get_step id db = find_row (step_is id) db.steps

-- `UPDATE saga_steps SET … WHERE id = $1`, with the check of `rowsAffected`.
unfoldable pub update_step : String → (Step → Step) → Db → Result (Unit {0}) × Db
update_step id f db =
    if any_row (step_is id) db.steps
    then (ok tt, record db { steps = update_where (step_is id) f db.steps })
    else (step_not_found id, db)

abbrev pub set_step_status : ℕ → StepStatus → String → Step → Step
set_step_status now status last_error step = record step {
  status = status;
  last_error = last_error;
  started_at = step_start_time status now step.started_at;
  finished_at = step_finish_time status now;
}

unfoldable pub update_step_status : ℕ → String → StepStatus → String → Db → Result (Unit {0}) × Db
unfolding update_step
update_step_status now id status last_error = update_step id (set_step_status now status last_error)

-- `jsonb` is what encoding/json and the JSONB column make of the response.
unfoldable pub update_step_response :
    (Object → Object) → String → Object → Db → Result (Unit {0}) × Db
unfolding update_step
update_step_response jsonb id response =
    update_step id (λ step. record step { action_response = jsonb response })

unfoldable pub increment_step_retry : String → Db → Result (Unit {0}) × Db
unfolding update_step
increment_step_retry id =
    update_step id (λ step. record step { retry_count = step.retry_count + 1 })

-- Both updates, or neither.
unfoldable pub increment_step_poll_count : String → ℕ → Db → Result (Unit {0}) × Db
increment_step_poll_count id next db =
    if any_row (step_is id) db.steps
    then if any_row (task_of id) db.poll_tasks
      then (
        ok tt,
        record db {
          steps =
              update_where (step_is id)
                (λ step. record step { poll_count = step.poll_count + 1; next_poll_at = some next })
                db.steps;
          poll_tasks =
              update_where (task_of id) (λ task. record task { next_poll_at = next }) db.poll_tasks;
        },
      )
      else (err (plain (texts ("poll task not found for step: " ∷ id ∷ []))), db)
    else (step_not_found id, db)
