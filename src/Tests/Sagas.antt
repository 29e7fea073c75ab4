-- ===== src/Tests/Sagas.antt =====
-- The coordinator, the poller's channels and the builder at concrete inputs.
use nsp_platform.Base.{
  ℕ, ◌+◌, ◌≡◌, ◌≤◌, refl, String, true, false, List, [], ◌∷◌, Option, none, some, arith, ◌↔◌,
}
use nsp_platform.Base.Lists.{length, All}
use nsp_platform.Json.{end}
use nsp_platform.Base.Int.{pos}
use nsp_platform.Saga.Definition.{Step, StepStatus, TxStatus, SagaDefinition}
use nsp_platform.Saga.Store.Tables.{Db}
use nsp_platform.Saga.Runtime.{PollResult}
use nsp_platform.Saga.Builder.{
  SagaBuilder, ok, build, build_on, build_steps, finish, check_step, set_defaults,
}
use nsp_platform.Saga.Builder.Laws.{IsBuilt, IsAcceptable, build-ok, build-accepts, build-build}
use nsp_platform.Saga.Poller.{send_to}
use nsp_platform.Saga.Poller.Laws.{held, send_to-send_to, held-send_to}
use nsp_platform.Saga.Coordinator.Forward.{scanned, scan_steps}
use nsp_platform.Saga.Coordinator.Drive.{submit, drive_transaction, scan_timeouts, recovery_scan}
use nsp_platform.Saga.Coordinator.Laws.{HasSucceeded, submit-submit, scan_steps-succeeded}
use nsp_platform.Saga.Coordinator.Moves.{
  Move, begins, sends, takes, ends, move, moves, started, idle, gives_up,
}
use nsp_platform.Saga.Coordinator.Once.{IsCounted, moves-once}
use nsp_platform.Saga.Lifecycle.{Reach, Evolves, RowEvolves}
use nsp_platform.Saga.Lifecycle.Writes.{update_transaction_status_cas-Evolves}
use nsp_platform.Saga.Lifecycle.Drive.{drive_transaction-Evolves}
use nsp_platform.Saga.Lifecycle.Scans.{scan_timeouts-Evolves, recovery_scan-Evolves}
use nsp_platform.Saga.Store.Tables.{TxRow, tx_is}
use nsp_platform.Base.Lists.{any_row}
use nsp_platform.Saga.Runtime.{Env, works}
use nsp_platform.Saga.Executor.{Context}
use nsp_platform.Saga.Poller.{scan_and_process}
use nsp_platform.Saga.Lifecycle.Closing.{Closing}
use nsp_platform.Saga.Frame.Poller.{scan_and_process-framed}
use nsp_platform.Saga.Frame.Requests.{allowed, compensate_step-bound}
use nsp_platform.Saga.Executor.Compensation.{compensate_step}
use nsp_platform.Tests.Fixtures.{tx, env, others, row, step, db, world}

-- The other session follows the life of a transaction.
others-Evolves : (n : ℕ) (db : Db) → Evolves db (others n db)
others-Evolves n db =
    update_transaction_status_cas-Evolves n n "tx2" TxStatus.pending TxStatus.running "" db
      (Reach.starts Reach.stays)

drive_transaction-Evolves_example :
    RowEvolves "tx1"
      (drive_transaction env 5 "tx1" world).1.db.transactions
      (row "tx1" TxStatus.running)
drive_transaction-Evolves_example =
    drive_transaction-Evolves env others-Evolves 5 "tx1" world "tx1" (row "tx1" TxStatus.running)
      refl

scan_timeouts-Evolves_example :
    RowEvolves "tx3" (scan_timeouts env world).1.db.transactions (row "tx3" TxStatus.compensating)
scan_timeouts-Evolves_example =
    scan_timeouts-Evolves env others-Evolves world "tx3" (row "tx3" TxStatus.compensating) refl

recovery_scan-Evolves_example :
    RowEvolves "tx2" (recovery_scan env world).1.db.transactions (row "tx2" TxStatus.pending)
recovery_scan-Evolves_example =
    recovery_scan-Evolves env others-Evolves world "tx2" (row "tx2" TxStatus.pending) refl

abbrev steps : List Step
steps = step "s1" 0 StepStatus.succeeded ∷ step "s2" 1 StepStatus.pending ∷ []

scan_steps-succeeded_example :
    ((found : Option Step) × (scan_steps none true steps ≡ scanned found true))
    ↔ All HasSucceeded steps
scan_steps-succeeded_example = scan_steps-succeeded steps

submit-submit_example : submit "tx9" (submit "tx9" world).1 ≡ (false, (submit "tx9" world).1)
unfolding submit
submit-submit_example = submit-submit "tx9" world refl

-- A second Submit while the first is queued, driven, and done, and a third afterwards.
abbrev traffic : List Move
traffic =
    begins "tx9"
    ∷ begins "tx9"
    ∷ sends "tx9"
    ∷ takes
    ∷ begins "tx9"
    ∷ ends "tx9"
    ∷ begins "tx9"
    ∷ sends "tx9"
    ∷ takes
    ∷ []

driven_again : (moves traffic (started world)).driven ≡ "tx9" ∷ []
unfolding move
driven_again = refl

moves-once_example :
    IsCounted "tx9" (moves traffic (started world))
    × ((moves (begins "tx9" ∷ sends "tx9" ∷ gives_up "tx9" ∷ []) (idle world)).world
        ≡ (submit "tx9" world).1)
moves-once_example = moves-once "tx9" traffic world

send_to-send_to_example :
    send_to "tx1" PollResult.failure (send_to "tx1" PollResult.success (("tx1", none) ∷ []))
    ≡ send_to "tx1" PollResult.success (("tx1", none) ∷ [])
send_to-send_to_example =
    send_to-send_to "tx1" PollResult.success PollResult.failure (("tx1", none) ∷ [])

held-send_to_example :
    held "tx1" (send_to "tx1" PollResult.success (("tx2", none) ∷ ("tx1", none) ∷ []))
    ≡ some PollResult.success
held-send_to_example =
    held-send_to "tx1" PollResult.success (("tx2", none) ∷ ("tx1", none) ∷ []) refl refl

abbrev transfer : SagaBuilder
transfer = record { name = "transfer"; steps = steps; timeout_sec = pos 30; payload = some end }

abbrev transfer_saga : SagaDefinition
transfer_saga = record {
  id = "";
  name = "transfer";
  steps = (build_steps 0 steps).0;
  timeout_sec = pos 30;
  payload = some end;
}

build-ok_example : IsBuilt transfer steps transfer_saga
unfolding build build_on build_steps finish check_step set_defaults
build-ok_example = build-ok transfer transfer_saga refl

acceptable : (id : String) (i : ℕ) (s : StepStatus) → IsAcceptable (step id i s)
acceptable id i s = record {
  has_action = (refl, refl);
  has_compensation = (refl, refl);
  has_poll_config = λ e. cc e;
}

build-accepts_example : (d : SagaDefinition) × ((build transfer).0 ≡ ok d)
build-accepts_example =
    build-accepts transfer (omega arith) (acceptable "s1" 0 _, (acceptable "s2" 1 _, tt))

build-build_example : build (build transfer).1 ≡ build transfer
build-build_example = build-build transfer

-- The same environment with a database that works.
abbrev calm : Env
calm = record env { fault = λ n. works }

abbrev context : Context
context = record { trace = none; deadline = none }

abbrev HasThree : List TxRow → Type 0
HasThree rows = any_row (tx_is "tx3") rows ≡ true

abbrev alone : Env
alone = record env { others = λ n db. db }

scan_and_process-framed_example : HasThree (scan_and_process alone 10 world).1.db.transactions
scan_and_process-framed_example = scan_and_process-framed alone HasThree (λ n db h. h) 10 world refl

abbrev closing_step : Step
closing_step = step "s1" 0 StepStatus.succeeded

compensate_step-bound_example :
    length
      (compensate_step calm context
        (tx "tx3" TxStatus.compensating)
        closing_step
        steps
        world).1.sent
    ≤ length world.sent + allowed closing_step.max_retry
compensate_step-bound_example =
    compensate_step-bound calm context (tx "tx3" TxStatus.compensating) closing_step steps world
