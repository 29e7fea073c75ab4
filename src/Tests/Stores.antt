-- ===== src/Tests/Stores.antt =====
-- The store at concrete inputs.
use nsp_platform.Base.{◌+◌, ◌≡◌, refl, false, List, [], ◌∷◌, some, arith}
use nsp_platform.Saga.Definition.{Step, StepStatus, TxStatus}
use nsp_platform.Saga.Store.Tables.{Db}
use nsp_platform.Saga.Store.Transactions.{
  get_transaction, create_transaction, insert_steps, create_transaction_with_steps,
  update_transaction_status_cas,
}
use nsp_platform.Saga.Store.Leases.{claim_transaction}
use nsp_platform.Saga.Store.Atomic.{stored, get-create}
use nsp_platform.Saga.Store.Cas.{cas-cas}
use nsp_platform.Saga.Store.Exclusion.{IsLeased, Event, claims, releases, recovers, run, Spares}
use nsp_platform.Saga.Store.Exclusion.Runs.{run-IsLeased, claim-IsLeased}
use nsp_platform.Tests.Fixtures.{tx, step, db, codec}

abbrev empty : Db
empty = record { transactions = []; steps = []; poll_tasks = []; next_task = 1 }

abbrev two_steps : List Step
two_steps = step "s1" 0 StepStatus.pending ∷ step "s2" 1 StepStatus.pending ∷ []

get-create_example :
    get_transaction "tx1"
      (create_transaction_with_steps codec.jsonb codec.timestamptz
        (tx "tx1" TxStatus.pending)
        two_steps
        empty).1
    ≡ some (stored codec.jsonb codec.timestamptz (tx "tx1" TxStatus.pending))
unfolding create_transaction_with_steps create_transaction insert_steps
get-create_example =
    get-create codec.jsonb codec.timestamptz (tx "tx1" TxStatus.pending) two_steps empty refl

cas-cas_example :
    (update_transaction_status_cas 6 6 "tx1" TxStatus.running TxStatus.compensating "late"
      (update_transaction_status_cas 5 5 "tx1" TxStatus.running TxStatus.succeeded "" db).1).0
    ≡ false
cas-cas_example =
    cas-cas 5 5 6 6 "tx1" TxStatus.running TxStatus.succeeded TxStatus.compensating "" "late" db
      refl

-- What another instance tries while the lease runs.
abbrev rivals : List Event
rivals =
    (20, 20, "b", claims "tx1" 100)
    ∷ (30, 31, "c", recovers (λ id. false) 10 100)
    ∷ (40, 40, "b", releases "tx1")
    ∷ []

claim-IsLeased_example :
    let r = run rivals (claim_transaction 10 10 "tx1" "a" 100 db).1 in
    IsLeased "tx1" "a" (10 + 100) r.1 × Spares "tx1" r.0
unfolding claim_transaction
claim-IsLeased_example =
    claim-IsLeased 10 10 100 "tx1" "a" rivals db ((refl, (refl, tt)), ((refl, tt), (tt, tt))) refl
      ((refl, omega arith), ((refl, omega arith), ((refl, omega arith), tt)))

abbrev leased : Db
leased = (claim_transaction 10 10 "tx1" "a" 100 db).1

run-IsLeased_example :
    IsLeased "tx1" "a" 110 (run rivals leased).1 × Spares "tx1" (run rivals leased).0
unfolding claim_transaction
run-IsLeased_example =
    run-IsLeased "tx1" "a" 110 rivals leased ((λ e. (refl, refl)), ((λ e. cc e), ((λ e. cc e), tt)))
      ((refl, omega arith), ((refl, omega arith), ((refl, omega arith), tt)))
