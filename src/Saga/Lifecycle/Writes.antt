-- ===== src/Saga/Lifecycle/Writes.antt =====
-- The writes to saga_transactions in saga/store.go as moves along the life of a transaction.
use nsp_platform.Base.{
  ℕ, String, ◌≡◌, refl, sym, ap, ◌∙◌, Bool, true, List, some, inl, inr, Bool-cases, str_eq→eq,
  &&-right,
}
use nsp_platform.Base.Lists.{find_row, update_where, any_row}
use nsp_platform.Saga.Definition.{TxStatus}
use nsp_platform.Saga.Store.Tables.{TxRow, Db, tx_is, same_status}
use nsp_platform.Saga.Store.Transactions.{
  tx_in, update_transaction_status, update_transaction_step, update_transaction_status_cas,
}
use nsp_platform.Saga.Store.Leases.{
  claim_transaction, release_transaction, list_recoverable_transactions,
  list_timed_out_transactions,
}
use nsp_platform.Saga.Runtime.{Env}
use nsp_platform.Saga.Frame.{Rely}
use nsp_platform.Saga.Lifecycle.{
  Reach, Reach-trans, Evolves, find_row-holds, RowEvolves-update_where,
}

pub same_status→eq : (s t : TxStatus) → same_status s t ≡ true → s ≡ t
same_status→eq TxStatus.pending TxStatus.pending h = refl
same_status→eq TxStatus.running TxStatus.running h = refl
same_status→eq TxStatus.compensating TxStatus.compensating h = refl
same_status→eq TxStatus.succeeded TxStatus.succeeded h = refl
same_status→eq TxStatus.failed TxStatus.failed h = refl
same_status→eq s t h = cc h

pub Evolves-refl : (a : Db) → Evolves a a
Evolves-refl a id r h = (r, h, Reach.stays)

pub Evolves-trans : (a b c : Db) → Evolves a b → Evolves b c → Evolves a c
Evolves-trans a b c h k id r e =
    let (r', e', m) = h id r e in let (r'', e'', m') = k id r' e' in (r'', e'', Reach-trans m m')

pub Evolves-frame : (a b : Db) → b.transactions ≡ a.transactions → Evolves a b
Evolves-frame a b same id r h = (r, ap (find_row (tx_is id)) same ∙ h, Reach.stays)

-- The store's operations are what the engine does; what else happens is the environment's.
pub Evolves-rely :
    (env : Env) → ((n : ℕ) (db : Db) → Evolves db (env.others n db)) → Rely env Evolves
Evolves-rely env others = record {
  R_refl = Evolves-refl;
  R_trans = Evolves-trans;
  R_others = others;
  R_frame = Evolves-frame;
}

-- Updates that keep the status.
Evolves-keeps :
    (p : TxRow → Bool) (f : TxRow → TxRow) (db : Db)
    → ((r : TxRow) → (f r).id ≡ r.id)
    → ((r : TxRow) → (f r).status ≡ r.status)
    → Evolves db (record db { transactions = update_where p f db.transactions })
Evolves-keeps p f db ids statuses id r h =
    RowEvolves-update_where id p f ids db.transactions r h (λ on. rw (statuses r) Reach.stays)

pub update_transaction_status_cas-Evolves :
    (now db_now : ℕ) (id : String) (expected new : TxStatus) (e : String) (db : Db)
    → Reach expected new
    → Evolves db (update_transaction_status_cas now db_now id expected new e db).1
unfolding update_transaction_status_cas
update_transaction_status_cas-Evolves now db_now id expected new e db move id' r h =
    RowEvolves-update_where id' (tx_in id expected) _ (λ x. refl) db.transactions r h
      (λ on.
        rw
          (same_status→eq r.status expected
            (&&-right (tx_is id r) (same_status r.status expected) on))
          move)

pub update_transaction_step-Evolves :
    (db_now : ℕ) (id : String) (step : ℕ) (db : Db)
    → Evolves db (update_transaction_step db_now id step db).1
unfolding update_transaction_step
update_transaction_step-Evolves db_now id step db =
    elim (Bool-cases (any_row (tx_is id) db.transactions)) [
      | inl e ↦ rw e (Evolves-keeps (tx_is id) _ db (λ r. refl) (λ r. refl))
      | inr e ↦ rw e (Evolves-refl db)
    ]

pub claim_transaction-Evolves :
    (now db_now : ℕ) (id me : String) (lease : ℕ) (db : Db)
    → Evolves db (claim_transaction now db_now id me lease db).1
unfolding claim_transaction
claim_transaction-Evolves now db_now id me lease db = Evolves-keeps _ _ db (λ r. refl) (λ r. refl)

pub release_transaction-Evolves :
    (db_now : ℕ) (id me : String) (db : Db) → Evolves db (release_transaction db_now id me db)
unfolding release_transaction
release_transaction-Evolves db_now id me db = Evolves-keeps _ _ db (λ r. refl) (λ r. refl)

pub list_recoverable_transactions-Evolves :
    (busy : String → Bool) (now db_now : ℕ) (me : String) (batch lease : ℕ) (db : Db)
    → Evolves db (list_recoverable_transactions busy now db_now me batch lease db).1
unfolding list_recoverable_transactions
list_recoverable_transactions-Evolves busy now db_now me batch lease db =
    Evolves-keeps _ _ db (λ r. refl) (λ r. refl)

pub list_timed_out_transactions-Evolves :
    (busy : String → Bool) (now db_now : ℕ) (me : String) (lease : ℕ) (db : Db)
    → Evolves db (list_timed_out_transactions busy now db_now me lease db).1
unfolding list_timed_out_transactions
list_timed_out_transactions-Evolves busy now db_now me lease db =
    Evolves-keeps _ _ db (λ r. refl) (λ r. refl)

-- The transaction has been seen with this status.
abbrev pub Seen : String → TxStatus → Db → Type 0
Seen id s db = (r : TxRow) × (find_row (tx_is id) db.transactions ≡ some r) × Reach s r.status

pub Seen-Evolves : (id : String) (s : TxStatus) (a b : Db) → Evolves a b → Seen id s a → Seen id s b
Seen-Evolves id s a b h (r, e, m) = let (r', e', m') = h id r e in (r', e', Reach-trans m m')

closing : {s : TxStatus} → Reach TxStatus.compensating s → Reach s TxStatus.failed
closing Reach.stays = Reach.fails Reach.stays
closing (Reach.fails Reach.stays) = Reach.stays

one_row :
    {id id' : String} (rows : List TxRow) (r0 r : TxRow)
    → id ≡ id'
    → find_row (tx_is id) rows ≡ some r0
    → find_row (tx_is id') rows ≡ some r
    → r0 ≡ r
one_row rows r0 r same_id h k = cc (h, k, same_id)

-- The row that is seen is the row that is found under the same id.
Seen-row :
    (id id' : String) (s : TxStatus) (db : Db) (r : TxRow)
    → Seen id s db
    → find_row (tx_is id') db.transactions ≡ some r
    → tx_is id r ≡ true
    → Reach s r.status
Seen-row id id' s db r (r0, e0, m) h on =
    rw
      (ap (λ x. x.status)
        (one_row db.transactions r0 r
          (sym (str_eq→eq r.id id on)
            ∙ str_eq→eq r.id id' (find_row-holds (tx_is id') db.transactions r h))
          e0 h))
      at m

-- Only a transaction that has been seen compensating may be closed as failed unconditionally.
pub update_transaction_status-Evolves :
    (now db_now : ℕ) (id : String) (e : String) (db : Db)
    → Seen id TxStatus.compensating db
    → Evolves db (update_transaction_status now db_now id TxStatus.failed e db).1
unfolding update_transaction_status
update_transaction_status-Evolves now db_now id e db seen =
    elim (Bool-cases (any_row (tx_is id) db.transactions)) [
      | inl hit ↦ rw hit λ id' r h.
          RowEvolves-update_where id' (tx_is id) _ (λ x. refl) db.transactions r h
            (λ on. closing (Seen-row id id' _ db r seen h on))
      | inr miss ↦ rw miss (Evolves-refl db)
    ]
