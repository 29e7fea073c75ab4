-- ===== src/Saga/Lifecycle/Drive.antt =====
-- driveTransaction of saga/coordinator.go: every round moves transactions along their life only.
use nsp_platform.Base.{
  ℕ, zero, suc, String, ◌≡◌, refl, sym, ap, ◌∙◌, Bool, true, false, List, Option, none, some,
  str_eq→eq, Option-cases, inl, inr,
}
use nsp_platform.Base.Lists.{find_row}
use nsp_platform.Saga.Definition.{Step, Transaction, TxStatus}
use nsp_platform.Saga.Errors.{Result, ok, err}
use nsp_platform.Saga.Store.Tables.{Db, TxRow, tx_is}
use nsp_platform.Saga.Store.Transactions.{get_transaction}
use nsp_platform.Saga.Runtime.{Env, World, query, pure}
use nsp_platform.Saga.Executor.{Context}
use nsp_platform.Saga.Coordinator.Drive.{
  claim, release, renewed, drive_status, drive_steps, drive_found, drive_round, drive_loop,
  drive_claimed, drive_transaction,
}
use nsp_platform.Saga.Frame.{
  Follows-ignore, Rely, Follows, Follows-pure, Follows-ask, Follows-modify, Follows-bind,
  Follows-attempt, Follows-if, Follows-statement, Follows-query, Follows-on_result, Follows-answer,
}
use nsp_platform.Saga.Frame.Poller.{Follows-rehydrate}
use nsp_platform.Saga.Lifecycle.{Reach, Evolves, RowEvolves, find_row-holds}
use nsp_platform.Saga.Lifecycle.Writes.{
  Evolves-rely, Seen, claim_transaction-Evolves, release_transaction-Evolves,
}
use nsp_platform.Saga.Lifecycle.Forward.{Follows-update_status_cas, Follows-execute_next_step}
use nsp_platform.Saga.Lifecycle.Compensation.{
  SeenThen, SeenThen-rely, Follows-seen, Follows-execute_compensation,
}

-- A transaction that is read has been seen with the status that is read.
get_transaction-Seen :
    (id : String) (db : Db) (tx : Transaction)
    → get_transaction id db ≡ some tx
    → Seen tx.id tx.status db
unfolding get_transaction
get_transaction-Seen id db tx h = elim (Option-cases (find_row (tx_is id) db.transactions)) [
  | inl e ↦ cc (rw (e, get_transaction) at h)
  | inr k ↦ rw (sym (some_is (rw (k.1, get_transaction) at h))) (row_seen k.0 k.1)
]
  where
    some_is : {a b : Transaction} → some a ≡ some b → a ≡ b
    some_is e = cc e

    row_seen :
        (row : TxRow)
        → find_row (tx_is id) db.transactions ≡ some row
        → Seen row.tx.id row.tx.status db
    row_seen row e = (
      row,
      ap (λ i. find_row (tx_is i) db.transactions)
            (str_eq→eq row.id id (find_row-holds (tx_is id) db.transactions row e))
          ∙ e,
      Reach.stays,
    )

module _ (env : Env) (others : (n : ℕ) (db : Db) → Evolves db (env.others n db)) where
  abbrev rely : Rely env Evolves
  rely = Evolves-rely env others

  pub Follows-claim : (id : String) → Follows Evolves (claim env id)
  unfolding claim
  Follows-claim id = Follows-statement rely _ (λ now db_now db.
      claim_transaction-Evolves now db_now id env.instance_id env.lease_duration db)

  pub Follows-release : (id : String) → Follows Evolves (release env id)
  unfolding release
  Follows-release id = Follows-ignore rely _ (
      Follows-statement rely _
        (λ now db_now. release_transaction-Evolves db_now id env.instance_id))

  Follows-drive_status :
      (ctx : Context) (tx : Transaction) (steps : List Step)
      → Follows (SeenThen tx.id tx.status) (drive_status env ctx tx steps)
  unfolding drive_status
  Follows-drive_status ctx tx steps =
      let seen = SeenThen-rely env others tx.id in
      elim tx.status
        as (λ s.
          Follows (SeenThen tx.id s) (drive_status env ctx (record tx { status = s }) steps)) [
            | TxStatus.pending ↦
                Follows-bind (seen _) _ _
                  (Follows-seen env others _ _ _ (
                    Follows-attempt rely _
                      (Follows-update_status_cas env others _ _ _ _ (Reach.starts Reach.stays))))
                  λ swapped. Follows-pure (seen _) _
            | TxStatus.running ↦
                Follows-seen env others _ _ _ (Follows-execute_next_step env others ctx _ steps)
            | TxStatus.compensating ↦
                Follows-bind (seen _) _ _
                  (Follows-execute_compensation env others ctx
                    (record tx { status = TxStatus.compensating }) steps)
                  λ _. Follows-pure (seen _) false
            | TxStatus.succeeded ↦ Follows-pure (seen _) false
            | TxStatus.failed ↦ Follows-pure (seen _) false
          ]

  Follows-drive_steps :
      (ctx : Context) (tx : Transaction) (steps : Result (List Step))
      → Follows (SeenThen tx.id tx.status) (drive_steps env ctx tx steps)
  unfolding drive_steps
  Follows-drive_steps ctx tx (err e) = Follows-pure (SeenThen-rely env others _ _) false
  Follows-drive_steps ctx tx (ok steps) =
      let seen = SeenThen-rely env others tx.id tx.status in
      Follows-bind seen _ _
        (Follows-seen env others _ _ _ (Follows-attempt rely _ (Follows-claim tx.id)))
        λ again.
          Follows-if seen (renewed env again) _ _ (Follows-drive_status ctx tx steps)
            (Follows-pure seen false)

  Follows-drive_found :
      (id : String) (tx : Transaction)
      → Follows (SeenThen tx.id tx.status) (drive_found env id (ok (some tx)))
  unfolding drive_found
  Follows-drive_found id tx =
      let seen = SeenThen-rely env others tx.id tx.status in
      Follows-bind seen _ _ (Follows-seen env others _ _ _ (Follows-rehydrate rely tx)) λ ctx.
        Follows-bind seen _ _
          (Follows-seen env others _ _ _ (Follows-attempt rely _ (Follows-query rely _)))
          λ steps. Follows-drive_steps ctx tx steps

  drive_found-Evolves :
      (id : String) (r : Result (Option Transaction)) (w : World)
      → ((tx : Transaction) → r ≡ ok (some tx) → Seen tx.id tx.status w.db)
      → Evolves w.db (drive_found env id r w).1.db
  unfolding drive_found pure
  drive_found-Evolves id (ok (some tx)) w seen = (Follows-drive_found id tx).at w (seen tx refl)
  drive_found-Evolves id (ok none) w seen = rely.R_refl w.db
  drive_found-Evolves id (err e) w seen = rely.R_refl w.db

  Follows-drive_round : (id : String) → Follows Evolves (drive_round env id)
  unfolding drive_round query
  Follows-drive_round id = Follows-bind rely _ _ (Follows-ask rely _) λ stop.
      Follows-if rely stop _ _ (Follows-pure rely false) (
        Follows-answer rely (λ now db_now db. (ok (get_transaction id db), db)) (drive_found env id)
          (λ o db. (tx : Transaction) → o ≡ some tx → Seen tx.id tx.status db)
          (λ now db_now db. rely.R_refl db)
          (λ now db_now db a e tx h. get_transaction-Seen id db tx (cc (e, h)))
          (λ r w q. drive_found-Evolves id r w (λ tx e. q (some tx) e tx refl)))

  Follows-drive_loop : (fuel : ℕ) (id : String) → Follows Evolves (drive_loop env fuel id)
  unfolding drive_loop
  Follows-drive_loop zero id = Follows-pure rely _
  Follows-drive_loop (suc fuel) id =
      Follows-bind rely _ _ (Follows-drive_round id)
        λ again. Follows-if rely again _ _ (Follows-drive_loop fuel id) (Follows-pure rely _)

  Follows-drive_claimed :
      (fuel : ℕ) (id : String) (r : Result Bool) → Follows Evolves (drive_claimed env fuel id r)
  Follows-drive_claimed fuel id (err e) = Follows-pure rely _
  Follows-drive_claimed fuel id (ok false) = Follows-pure rely _
  Follows-drive_claimed fuel id (ok true) =
      Follows-bind rely _ _ (Follows-attempt rely _ (Follows-drive_loop fuel id)) λ end.
        Follows-bind rely _ _ (Follows-release id)
          λ _. Follows-on_result end _ _ (Follows-pure rely) (λ e. Follows-pure rely _)

  Follows-drive_transaction :
      (fuel : ℕ) (id : String) → Follows Evolves (drive_transaction env fuel id)
  unfolding drive_transaction
  Follows-drive_transaction fuel id =
      Follows-bind rely _ _ (Follows-attempt rely _ (Follows-claim id)) λ claimed.
        Follows-bind rely _ _ (Follows-attempt rely _ (Follows-drive_claimed fuel id claimed))
          λ end.
            Follows-bind rely _ _ (Follows-modify rely _ (λ w. refl))
              λ _. Follows-on_result end _ _ (Follows-pure rely) (λ e. Follows-pure rely _)

  -- If what the other sessions write moves transactions along their life only, then so does
  -- driveTransaction, whatever the faults of the database, the answers of the services and the
  -- stop signals, and also where it is cut off after any number of rounds: a transaction that is in
  -- the store is there afterwards, with a status that its status can become. So a transaction that
  -- has succeeded or failed keeps its status, and one that is compensating never succeeds.
  pub drive_transaction-Evolves :
      (fuel : ℕ) (id : String) (w : World) (other : String) (r : TxRow)
      → find_row (tx_is other) w.db.transactions ≡ some r
      → RowEvolves other (drive_transaction env fuel id w).1.db.transactions r
  drive_transaction-Evolves fuel id w = (Follows-drive_transaction fuel id).at w
