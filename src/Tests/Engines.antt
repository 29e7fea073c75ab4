-- ===== src/Tests/Engines.antt =====
-- The engine's front at concrete inputs: a configuration, a submission, and waiting.
use nsp_platform.Base.{
  ℕ, ◌≡◌, refl, String, true, false, [], ◌∷◌, none, some, arith, leb, str_eq, if◌then◌else◌,
}
use nsp_platform.Base.Int.{pos, negsuc}
use nsp_platform.Base.Lists.{All}
use nsp_platform.Saga.Definition.{StepStatus, SagaDefinition, TxStatus}
use nsp_platform.Saga.Errors.{ok, err, plain, bare, transaction_failed}
use nsp_platform.Saga.Runtime.{Env, World, works, fails}
use nsp_platform.Saga.Engine.{
  TransactionStatus, transaction_view, submit_definition, check_credential, check_credentials,
  validate, new_steps, create, query_transaction,
}
use nsp_platform.Json.{end}
use nsp_platform.Saga.Runtime.{
  ◌>>=◌, annotate, statement, query, on_option, pure, raise, ask, now, modify,
}
use nsp_platform.Saga.Store.Transactions.{
  get_transaction, create_transaction_with_steps, create_transaction, insert_steps,
}
use nsp_platform.Saga.Store.Steps.{get_steps}
use nsp_platform.Saga.Coordinator.Drive.{submit}
use nsp_platform.Saga.Engine.Config.{
  Config, Database, default_config, parts, new_engine, apply_defaults,
}
use nsp_platform.Saga.Engine.ConfigLaws.{IsRunnable, new_engine-IsRunnable}
use nsp_platform.Saga.Engine.Wait.{wait_for_transaction, wait_loop, on_status}
use nsp_platform.Saga.Engine.WaitLaws.{wait-succeeded, wait-failed}
use nsp_platform.Saga.Engine.Termination.{Returns, wait-Returns, wait-gives_up}
use nsp_platform.Saga.Engine.Submission.{
  Lookup, HasCredential, submit-HasCredential, submit-refused,
}
use nsp_platform.Tests.Fixtures.{env, world, step, db, tx, row}

abbrev up : Database
up = record { open_dsn = λ d. none; ping = λ d. none }

abbrev config : Config
config = record default_config { dsn = "postgres://saga"; worker_count = negsuc 0 }

new_engine-IsRunnable_example :
    IsRunnable (parts (record config { worker_count = pos 4; instance_id = "host-7" }))
unfolding new_engine apply_defaults
new_engine-IsRunnable_example = new_engine-IsRunnable up "host-7" (some config) _ refl

-- The caller's context has ended from the tenth effect on.
abbrev ending : Env
ending = record env { is_done = λ n. leb 10 n }

wait-Returns_example :
    Returns (wait_for_transaction ending true 11 "tx1" (record world { tick = 0 })).0
wait-Returns_example =
    wait-Returns ending true 10 10 "tx1" (record world { tick = 0 }) (λ n h. ground arith)
      (omega arith)

abbrev down : Env
down = record env { fault = λ n. fails "connection refused" }

wait-gives_up_example : Returns (wait_for_transaction down false 3 "tx1" world).0
wait-gives_up_example = wait-gives_up down (λ n. ("connection refused", refl)) false "tx1" world

-- A database with one transaction of that status.
abbrev holding : TxStatus → World
holding status = record world { db = record db { transactions = row "tx1" status ∷ [] } }

abbrev alone : Env
alone = record env { others = λ n db. db; fault = λ n. works }

abbrev seen : TxStatus → TransactionStatus
seen status = transaction_view (tx "tx1" status) db.steps

wait-succeeded_example :
    (st : TransactionStatus) × (some (seen TxStatus.succeeded) ≡ some st)
    × (st.status ≡ "succeeded")
unfolding wait_for_transaction wait_loop on_status query_transaction ◌>>=◌ annotate statement query
    on_option pure raise get_transaction get_steps
wait-succeeded_example =
    wait-succeeded alone true 1 "tx1" (holding TxStatus.succeeded)
      (record { status = some (seen TxStatus.succeeded); error = none }) refl refl

wait-failed_example :
    (st : TransactionStatus) × (some (seen TxStatus.failed) ≡ some st) × (st.status ≡ "failed")
unfolding wait_for_transaction wait_loop on_status query_transaction ◌>>=◌ annotate statement query
    on_option pure raise get_transaction get_steps
wait-failed_example =
    wait-failed alone true 1 "tx1" (holding TxStatus.failed)
      (record { status = some (seen TxStatus.failed); error = some (bare transaction_failed) })
      (bare transaction_failed) refl refl refl

-- One access key is known, and it is enabled.
abbrev keys : Lookup
keys n ak =
    if str_eq ak "orders"
    then ok (some (record { access_key = "orders"; secret_key = "s"; label = ""; enabled = true }))
    else ok none

abbrev definition : String → SagaDefinition
definition ak = record {
  id = "";
  name = "order";
  steps = record (step "" 0 StepStatus.pending) { auth_ak = ak } ∷ [];
  timeout_sec = pos 60;
  payload = some end;
}

abbrev checking : Env
checking = record alone { credentials = some keys }

abbrev uuid : ℕ → String
uuid n = "a1"

submit-HasCredential_example : All (HasCredential keys) (definition "orders").steps
unfolding submit_definition validate check_credentials check_credential new_steps create ◌>>=◌
    annotate statement on_option pure ask now modify create_transaction_with_steps
    create_transaction insert_steps submit
submit-HasCredential_example =
    submit-HasCredential checking keys uuid none (definition "orders") world "a1" refl refl

submit-refused_example :
    ((submit_definition checking uuid none (definition "other") world).0
      ≡ err (plain "credential not found or disabled for AuthAK \"other\""))
    × ((submit_definition checking uuid none (definition "other") world).1.db ≡ db)
    × ((submit_definition checking uuid none (definition "other") world).1.task_queue ≡ [])
unfolding check_credentials check_credential ◌>>=◌ pure
submit-refused_example =
    submit-refused checking keys uuid none (definition "other") world
      (plain "credential not found or disabled for AuthAK \"other\"") refl refl
