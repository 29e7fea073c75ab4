-- ===== src/Saga/Store/Cas.antt =====
-- UpdateTransactionStatusCAS of saga/store.go as a lock between the goroutines that compete to move
-- a transaction on.
use nsp_platform.Base.{ℕ, String, ◌≡◌, Bool, false, ◌&&◌, arith}
use nsp_platform.Base.Rows.{All-Unit, All-update_where, any_row-false}
use nsp_platform.Saga.Definition.{TxStatus}
use nsp_platform.Saga.Store.Tables.{Db, tx_is, same_status}
use nsp_platform.Saga.Store.Transactions.{tx_in, update_transaction_status_cas}

and_false : (a b : Bool) → b ≡ false → (a && b) ≡ false
and_false a b h = ground arith

-- Once a swap away from a status is done, whether it has found the transaction or not, a second
-- swap of the transaction from that status, to whatever status, finds nothing to swap.
pub cas-cas :
    (now db_now now' db_now' : ℕ) (id : String) (expected new new' : TxStatus) (e e' : String)
    (db : Db)
    → same_status new expected ≡ false
    → (update_transaction_status_cas now' db_now' id expected new' e'
        (update_transaction_status_cas now db_now id expected new e db).1).0
      ≡ false
unfolding update_transaction_status_cas
cas-cas now db_now now' db_now' id expected new new' e e' db ne = any_row-false _ _ (
    All-update_where (λ r. Unit {0}) (λ r. tx_in id expected r ≡ false) (tx_in id expected) _
      db.transactions (λ r h on. and_false (tx_is id r) _ ne) (λ r h off. off)
      (All-Unit db.transactions))
