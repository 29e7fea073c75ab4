-- ===== src/Saga/Lifecycle/Closing.antt =====
-- executeCompensation of saga/coordinator.go ends the life of a transaction.
use nsp_platform.Base.{ℕ, String, ◌≡◌, Bool, true, false, List, some}
use nsp_platform.Base.Lists.{find_row}
use nsp_platform.Saga.Definition.{Step, Transaction, TxStatus}
use nsp_platform.Saga.Errors.{Result, ok}
use nsp_platform.Saga.Store.Tables.{Db, TxRow, tx_is}
use nsp_platform.Saga.Runtime.{Env, World, M, works}
use nsp_platform.Saga.Executor.{Context}
use nsp_platform.Saga.Coordinator.Compensation.{Outcome, through, to_compensate, compensate_all}
use nsp_platform.Saga.Lifecycle.{Evolves}

-- An action that returns this value from every state.
abbrev Returns : {A : Type 0} → M A → A → Type 0
Returns m a = (w : World) → (m w).0 ≡ ok a

-- The text that says whether all compensations succeeded.
abbrev pub text_of : Bool → String
text_of true = "compensation completed"
text_of false = "compensation partially failed, manual intervention required"

module _ (env : Env) (ctx : Context) (tx : Transaction) where
  -- The transaction is closed as failed, and its text says whether the calls of CompensateStep in the
  -- loop from this state all succeeded.
  abbrev pub Closing : List Step → World → Db → Type 0
  Closing steps w db =
      (b : Bool) × ((compensate_all env ctx tx true steps (to_compensate steps) w).0
        ≡ ok (through b))
      × ((r : TxRow) × (find_row (tx_is tx.id) db.transactions ≡ some r)
          × (r.status ≡ TxStatus.failed)
          × (r.last_error ≡ text_of b))

module _ (env : Env) (others : (n : ℕ) (db : Db) → Evolves db (env.others n db))
    (quiet : (n : ℕ) → env.is_done n ≡ false) (stable : (n : ℕ) → env.fault n ≡ works)
    (ctx : Context) (tx : Transaction) where
  abbrev IsThrough : Result Outcome → Type 0
  IsThrough r = (b : Bool) × (r ≡ ok (through b))

  -- The transaction is there, closed as failed with this text.
  abbrev Closed : String → Db → Type 0
  Closed e db =
      (r : TxRow) × (find_row (tx_is tx.id) db.transactions ≡ some r)
      × (r.status ≡ TxStatus.failed)
      × (r.last_error ≡ e)
