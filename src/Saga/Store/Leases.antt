-- ===== src/Saga/Store/Leases.antt =====
-- saga/store.go: the lease of a transaction (ClaimTransaction, ReleaseTransaction) and the two
-- listings that claim what they select.
use nsp_platform.Base.{
  ℕ, ◌+◌, String, Bool, true, false, not, ◌&&◌, ◌||◌, str_eq, List, [], ◌∷◌, none, some, map,
}
use nsp_platform.Base.Lists.{select, update_where, any_row, order_by, take}
use nsp_platform.Saga.Definition.{Transaction, TxStatus}
use nsp_platform.Saga.Store.Tables.{TxRow, Db, tx_is, is_before, is_null, is_value, is_active}

-- `SET locked_by = …, locked_until = …, updated_at = NOW()`.
abbrev pub lock_row : String → ℕ → ℕ → TxRow → TxRow
lock_row instance_id until db_now row = record row {
  tx = record row.tx { updated_at = db_now };
  locked_by = some instance_id;
  locked_until = some until;
}

-- The `WHERE` of ClaimTransaction.
abbrev pub claimable : String → String → ℕ → TxRow → Bool
claimable id instance_id db_now row =
    tx_is id row
    && is_active row.status
    && (is_null row.locked_by
        || is_before row.locked_until db_now
        || is_value row.locked_by instance_id)

-- The Boolean is `rowsAffected > 0`.
unfoldable pub claim_transaction : ℕ → ℕ → String → String → ℕ → Db → Bool × Db
claim_transaction now db_now id instance_id lease db = (
  any_row (claimable id instance_id db_now) db.transactions,
  record db {
    transactions =
        update_where (claimable id instance_id db_now) (lock_row instance_id (now + lease) db_now)
          db.transactions;
  },
)

-- The `WHERE` of ReleaseTransaction.
abbrev pub held_by : String → String → TxRow → Bool
held_by id instance_id row = tx_is id row && is_value row.locked_by instance_id

abbrev pub unlock_row : ℕ → TxRow → TxRow
unlock_row db_now row = record row {
  tx = record row.tx { updated_at = db_now };
  locked_by = none;
  locked_until = none;
}

unfoldable pub release_transaction : ℕ → String → String → Db → Db
release_transaction db_now id instance_id db = record db {
  transactions = update_where (held_by id instance_id) (unlock_row db_now) db.transactions;
}

-- `locked_by IS NULL OR locked_until < NOW()`.
abbrev pub is_free : ℕ → TxRow → Bool
is_free db_now row = is_null row.locked_by || is_before row.locked_until db_now

-- `id = ANY($3)`.
abbrev pub is_listed : List TxRow → TxRow → Bool
is_listed [] row = false
is_listed (r ∷ rs) row = str_eq r.id row.id || is_listed rs row

abbrev pub timeout_key : TxRow → ℕ
timeout_key row = elim row.timeout_at [ none ↦ 0 | some t ↦ t ]

-- The selected rows locked, and the transactions as they were selected.
abbrev pub claim_all : ℕ → ℕ → String → ℕ → List TxRow → Db → List Transaction × Db
claim_all now db_now instance_id lease rows db = (
  map (λ row. row.tx) rows,
  record db {
    transactions =
        update_where (is_listed rows) (lock_row instance_id (now + lease) db_now) db.transactions;
  },
)

-- `busy` are the rows that another session has locked, which SKIP LOCKED passes over.
abbrev pub recoverable : (String → Bool) → ℕ → TxRow → Bool
recoverable busy db_now row = is_active row.status && is_free db_now row && not (busy row.id)

unfoldable pub list_recoverable_transactions :
    (String → Bool) → ℕ → ℕ → String → ℕ → ℕ → Db → List Transaction × Db
list_recoverable_transactions busy now db_now instance_id batch_size lease db =
    claim_all now db_now instance_id lease
      (take batch_size
        (order_by (λ row. row.created_at) (select (recoverable busy db_now) db.transactions)))
      db

abbrev pub is_started : TxStatus → Bool
is_started TxStatus.running = true
is_started TxStatus.compensating = true
is_started _ = false

abbrev pub timed_out : (String → Bool) → ℕ → TxRow → Bool
timed_out busy db_now row =
    is_started row.status
    && is_before row.timeout_at db_now
    && is_free db_now row
    && not (busy row.id)

unfoldable pub list_timed_out_transactions :
    (String → Bool) → ℕ → ℕ → String → ℕ → Db → List Transaction × Db
list_timed_out_transactions busy now db_now instance_id lease db =
    claim_all now db_now instance_id lease
      (take 50 (order_by timeout_key (select (timed_out busy db_now) db.transactions))) db
