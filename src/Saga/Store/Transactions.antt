-- ===== src/Saga/Store/Transactions.antt =====
-- saga/store.go: the operations on saga_transactions, and the insertion of a whole saga.
use nsp_platform.Base.{
  ℕ, String, Bool, not, ◌&&◌, ◌||◌, ◌==◌, str_eq, List, [], ◌∷◌, ◌++◌, Option, none, some,
  option_map, if◌then◌else◌,
}
use nsp_platform.Base.Lists.{find_row, update_where, any_row}
use nsp_platform.Base.Text.{texts}
use nsp_platform.Json.{Object}
use nsp_platform.Saga.Definition.{Step, Transaction, TxStatus}
use nsp_platform.Saga.Errors.{Result, ok, err, plain}
use nsp_platform.Saga.Store.Tables.{TxRow, Db, tx_is, step_is, same_status, finish_time}

abbrev set_status : TxStatus → String → ℕ → ℕ → TxRow → TxRow
set_status status last_error now db_now row = record row {
  tx = record row.tx {
    status = status;
    last_error = last_error;
    updated_at = db_now;
    finished_at = finish_time status now;
  };
}

abbrev tx_not_found : String → Result (Unit {0})
tx_not_found id = err (plain (texts ("transaction not found: " ∷ id ∷ [])))

unfoldable pub get_transaction : String → Db → Option Transaction
get_transaction id db = elim (find_row (tx_is id) db.transactions) [
  | none ↦ none
  | some row ↦ some row.tx
]

unfoldable pub update_transaction_status :
    ℕ → ℕ → String → TxStatus → String → Db → Result (Unit {0}) × Db
update_transaction_status now db_now id status last_error db =
    if any_row (tx_is id) db.transactions
    then (
      ok tt,
      record db {
        transactions =
            update_where (tx_is id) (set_status status last_error now db_now) db.transactions;
      },
    )
    else (tx_not_found id, db)

unfoldable pub update_transaction_step : ℕ → String → ℕ → Db → Result (Unit {0}) × Db
update_transaction_step db_now id current_step db =
    if any_row (tx_is id) db.transactions
    then (
      ok tt,
      record db {
        transactions =
            update_where (tx_is id)
              (λ row. record row {
                tx = record row.tx { current_step = current_step; updated_at = db_now };
              })
              db.transactions;
      },
    )
    else (tx_not_found id, db)

-- `WHERE id = $1 AND status = $2`.
abbrev pub tx_in : String → TxStatus → TxRow → Bool
tx_in id status row = tx_is id row && same_status row.status status

-- The Boolean is `rowsAffected > 0`.
unfoldable pub update_transaction_status_cas :
    ℕ → ℕ → String → TxStatus → TxStatus → String → Db → Bool × Db
update_transaction_status_cas now db_now id expected new last_error db = (
  any_row (tx_in id expected) db.transactions,
  record db {
    transactions =
        update_where (tx_in id expected) (set_status new last_error now db_now) db.transactions;
  },
)

-- What encoding/json and the JSONB columns make of a map that is written and read again, and the
-- TIMESTAMPTZ columns, which keep microseconds, of a time.
module _ (jsonb : Object → Object) (timestamptz : ℕ → ℕ) where
  -- The columns that the INSERT names; lease and `finished_at` start as NULL.
  abbrev pub tx_row : Transaction → TxRow
  tx_row tx = record {
    tx = record tx {
      payload = jsonb tx.payload;
      created_at = timestamptz tx.created_at;
      updated_at = timestamptz tx.updated_at;
      timeout_at = option_map timestamptz tx.timeout_at;
      finished_at = none;
    };
    locked_by = none;
    locked_until = none;
  }

  unfoldable pub create_transaction : Transaction → Db → Result (Unit {0}) × Db
  create_transaction tx db =
      if any_row (tx_is tx.id) db.transactions
      then (err (plain "failed to create transaction"), db)
      else (ok tt, record db { transactions = db.transactions ++ tx_row tx ∷ [] })

  -- The columns that the INSERT names; the others take their defaults.
  abbrev step_row : Step → Step
  step_row step = record step {
    action_payload = jsonb step.action_payload;
    action_response = none;
    compensate_payload = jsonb step.compensate_payload;
    poll_count = 0;
    next_poll_at = none;
    retry_count = 0;
    last_error = "";
    started_at = none;
    finished_at = none;
  }

  -- The primary key, `UNIQUE (transaction_id, step_index)` and the foreign key.
  abbrev pub violates : Step → Db → Bool
  violates step db =
      any_row (step_is step.id) db.steps
      || any_row (λ s. str_eq s.transaction_id step.transaction_id && s.index == step.index)
          db.steps
      || not (any_row (tx_is step.transaction_id) db.transactions)

  -- The loop of the prepared statement: the first violation ends it.
  unfoldable pub insert_steps : List Step → Db → Result (Unit {0}) × Db
  insert_steps [] db = (ok tt, db)
  insert_steps (step ∷ steps) db =
      let rest = insert_steps steps (record db { steps = db.steps ++ step_row step ∷ [] }) in
      if violates step db
      then (err (plain (texts ("failed to create step " ∷ step.id ∷ []))), db)
      else rest

  -- `Commit` on success and the deferred `Rollback` otherwise.
  abbrev pub commit_or_rollback : Db → Result (Unit {0}) × Db → Result (Unit {0}) × Db
  commit_or_rollback before (ok u, after) = (ok u, after)
  commit_or_rollback before (err e, after) = (err e, before)

  unfoldable pub create_steps : List Step → Db → Result (Unit {0}) × Db
  unfolding insert_steps
  create_steps steps db = commit_or_rollback db (insert_steps steps db)

  abbrev pub then_steps : List Step → Result (Unit {0}) × Db → Result (Unit {0}) × Db
  then_steps steps (ok u, db) = insert_steps steps db
  then_steps steps (err e, db) = (err e, db)

  unfoldable pub create_transaction_with_steps :
      Transaction → List Step → Db → Result (Unit {0}) × Db
  unfolding create_transaction insert_steps
  create_transaction_with_steps tx steps db =
      commit_or_rollback db (then_steps steps (create_transaction tx db))
