-- ===== src/Saga/Coordinator/Drive.antt =====
-- saga/coordinator.go: Submit, driveTransaction, and the two scans.
use nsp_platform.Base.{
  ℕ, zero, suc, ltb, String, Bool, true, false, List, [], ◌∷◌, ◌++◌, Option, some, str_eq,
  if◌then◌else◌,
}
use nsp_platform.Base.Lists.{length, any_row, delete_where}
use nsp_platform.Saga.Definition.{Step, Transaction, TxStatus}
use nsp_platform.Saga.Errors.{Result, ok, err}
use nsp_platform.Saga.Runtime.{
  Env, World, M, ◌>>=◌, ◌>>◌, pure, attempt, ask, modify, statement, query, on_result,
}
use nsp_platform.Saga.Store.Transactions.{get_transaction}
use nsp_platform.Saga.Store.Steps.{get_steps}
use nsp_platform.Saga.Store.Leases.{
  claim_transaction, release_transaction, list_recoverable_transactions,
  list_timed_out_transactions,
}
use nsp_platform.Saga.Executor.{Context}
use nsp_platform.Saga.Poller.{ignore, rehydrate_saga_trace_context}
use nsp_platform.Saga.Coordinator.Forward.{update_status_cas, execute_next_step}
use nsp_platform.Saga.Coordinator.Compensation.{execute_compensation}

-- The capacity of `taskQueue`.
abbrev pub queue_capacity : ℕ
queue_capacity = 1000

abbrev pub mark : String → World → World
mark id w = record w { active_tx = id ∷ w.active_tx }

-- `delete(c.activeTx, txID)`.
abbrev pub unmark : String → World → World
unmark id w = record w { active_tx = delete_where (str_eq id) w.active_tx }

-- The `select` that sends to the queue: whether there was room.
abbrev pub enqueue : String → World → Bool × World
enqueue id w =
    if ltb (length w.task_queue) queue_capacity
    then (true, record w { task_queue = w.task_queue ++ id ∷ [] })
    else (false, w)

abbrev pub unmark_unless : String → Bool × World → Bool × World
unmark_unless id (true, w) = (true, w)
unmark_unless id (false, w) = (false, unmark id w)

-- The Boolean is whether the transaction was queued.
unfoldable pub submit : String → World → Bool × World
submit id w =
    if any_row (str_eq id) w.active_tx
    then (false, w)
    else unmark_unless id (enqueue id (mark id w))

-- How the loop ends: by a return of the code, or because the fuel of the model is used up.
pub data Driven : Type 0 where
  returned out_of_fuel : Driven

module _ (env : Env) where
  unfoldable pub claim : String → M Bool
  claim id = statement env (λ now db_now db.
      let (won, db') = claim_transaction now db_now id env.instance_id env.lease_duration db in
      (ok won, db'))

  unfoldable pub release : String → M (Unit {0})
  release id =
      ignore
        (statement env (λ now db_now db. (ok tt, release_transaction db_now id env.instance_id db)))

  abbrev pub renewed : Result Bool → Bool
  renewed (ok b) = b
  renewed (err e) = false

  -- The `switch` on the status; the Boolean is whether the loop continues.
  unfoldable pub drive_status : Context → Transaction → List Step → M Bool
  drive_status ctx tx steps = elim tx.status [
    | TxStatus.pending ↦ do
      swapped ← attempt (update_status_cas env tx.id TxStatus.pending TxStatus.running "")
      pure (renewed swapped)
    | TxStatus.running ↦ execute_next_step env ctx tx steps
    | TxStatus.compensating ↦ execute_compensation env ctx tx steps >> pure false
    | TxStatus.succeeded ↦ pure false
    | TxStatus.failed ↦ pure false
  ]

  unfoldable pub drive_steps : Context → Transaction → Result (List Step) → M Bool
  drive_steps ctx tx (err e) = pure false
  drive_steps ctx tx (ok steps) = do
    again ← attempt (claim tx.id)
    if renewed again then drive_status ctx tx steps else pure false

  unfoldable pub drive_found : String → Result (Option Transaction) → M Bool
  drive_found id (ok (some tx)) = do
    ctx ← rehydrate_saga_trace_context env tx
    steps ← attempt (query env (get_steps id))
    drive_steps ctx tx steps
  drive_found id _ = pure false

  -- One round of the loop.
  unfoldable pub drive_round : String → M Bool
  drive_round id = do
    stop ← ask env.is_done
    if stop
        then pure false
        else (do tx ← attempt (query env (get_transaction id)); drive_found id tx)

  unfoldable pub drive_loop : ℕ → String → M Driven
  drive_loop zero id = pure out_of_fuel
  drive_loop (suc fuel) id = do
    again ← drive_round id
    if again then drive_loop fuel id else pure returned

  abbrev pub drive_claimed : ℕ → String → Result Bool → M Driven
  drive_claimed fuel id (err e) = pure returned
  drive_claimed fuel id (ok false) = pure returned
  drive_claimed fuel id (ok true) = do
    end ← attempt (drive_loop fuel id)
    release id
    on_result end pure (λ e. pure returned)

  -- The deferred calls: the lease is released if it was claimed, then the mark is removed.
  unfoldable pub drive_transaction : ℕ → String → M Driven
  drive_transaction fuel id = do
    claimed ← attempt (claim id)
    end ← attempt (drive_claimed fuel id claimed)
    modify (unmark id)
    on_result end pure (λ e. pure returned)

  unfoldable pub submit_or_release : String → M (Unit {0})
  submit_or_release id = do
    queued ← (λ w. let (b, w') = submit id w in (ok b, w'))
    if queued then pure tt else release id

  unfoldable pub release_all : List Transaction → M (Unit {0})
  release_all [] = pure tt
  release_all (tx ∷ txs) = release tx.id >> release_all txs

  unfoldable pub recover_all : List Transaction → M (Unit {0})
  recover_all [] = pure tt
  recover_all (tx ∷ txs) = do
    stop ← ask env.is_done
    if stop then release_all (tx ∷ txs) else (submit_or_release tx.id >> recover_all txs)

  abbrev pub listed : Result (List Transaction) → List Transaction
  listed (ok txs) = txs
  listed (err e) = []

  unfoldable pub recovery_scan : M (Unit {0})
  recovery_scan = do
    stop ← ask env.is_done
    if stop then pure tt else (do
      n ← ask (λ n. n)
      txs ← attempt (
          statement env (λ now db_now db.
            let (txs, db') =
              list_recoverable_transactions (env.locked_txs n) now db_now env.instance_id 100
                env.lease_duration db in
            (ok txs, db')))
      recover_all (listed txs))

  unfoldable pub time_out_all : List Transaction → M (Unit {0})
  time_out_all [] = pure tt
  time_out_all (tx ∷ txs) = do
    swapped ←
        attempt (update_status_cas env tx.id tx.status TxStatus.compensating "transaction timeout")
    if renewed swapped then submit_or_release tx.id else release tx.id
    time_out_all txs

  unfoldable pub scan_timeouts : M (Unit {0})
  scan_timeouts = do
    n ← ask (λ n. n)
    txs ← attempt (
        statement env (λ now db_now db.
          let (txs, db') =
            list_timed_out_transactions (env.locked_txs n) now db_now env.instance_id
              env.lease_duration db in
          (ok txs, db')))
    time_out_all (listed txs)
