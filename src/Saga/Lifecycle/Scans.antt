-- ===== src/Saga/Lifecycle/Scans.antt =====
-- scanTimeouts and recoveryScan of saga/coordinator.go move transactions along their life only.
use nsp_platform.Base.{
  arith, ℕ, String, ◌≡◌, refl, ap, Bool-cases, str_eq, ltb, inl, inr, Bool, true, List, [], ◌∷◌,
  map, some,
}
use nsp_platform.Base.Lists.{All, find_row, any_row, length}
use nsp_platform.Base.Rows.{All-Unit, All-map, All-select, All-take, All-order_by}
use nsp_platform.Saga.Definition.{Transaction, TxStatus}
use nsp_platform.Saga.Errors.{Result, ok, err}
use nsp_platform.Saga.Store.Tables.{Db, TxRow, tx_is}
use nsp_platform.Saga.Store.Leases.{is_started, timed_out, timeout_key, list_timed_out_transactions}
use nsp_platform.Saga.Runtime.{Env, World}
use nsp_platform.Saga.Coordinator.Drive.{
  queue_capacity, submit, submit_or_release, release_all, recover_all, listed, renewed,
  recovery_scan, time_out_all, scan_timeouts,
}
use nsp_platform.Saga.Frame.{
  Rely, Follows, Follows-pure, Follows-ask, Follows-bind, Follows-attempt, Follows-if,
  Follows-statement, Follows-answer,
}
use nsp_platform.Saga.Lifecycle.{Reach, Evolves, RowEvolves}
use nsp_platform.Saga.Lifecycle.Writes.{
  Evolves-rely, Evolves-frame, list_recoverable_transactions-Evolves,
  list_timed_out_transactions-Evolves,
}
use nsp_platform.Saga.Lifecycle.Forward.{Follows-update_status_cas}
use nsp_platform.Saga.Lifecycle.Drive.{Follows-release}

-- The status of what the scan for timeouts lists can become compensating.
abbrev Started : Transaction → Type 0
Started tx = Reach tx.status TxStatus.compensating

Reach-is_started : (s : TxStatus) → is_started s ≡ true → Reach s TxStatus.compensating
Reach-is_started TxStatus.running h = Reach.compensates Reach.stays
Reach-is_started TxStatus.compensating h = Reach.stays
Reach-is_started s h = cc h

All-transactions :
    {A B : Type 0} (P : A → Type 0) (Q : B → Type 0) (f : A → B) (xs : List A)
    → ((x : A) → P x → Q (f x))
    → All P xs
    → All Q (map f xs)
All-transactions P Q f [] h k = tt
All-transactions P Q f (x ∷ xs) h k = (h x k.0, All-transactions P Q f xs h k.1)

started_first :
    (busy : String → Bool) (db_now : ℕ) (r : TxRow)
    → timed_out busy db_now r ≡ true
    → is_started r.status ≡ true
started_first busy db_now r h = ground arith

listed-Started :
    (busy : String → Bool) (now db_now : ℕ) (me : String) (lease : ℕ) (db : Db)
    → All Started (list_timed_out_transactions busy now db_now me lease db).0
unfolding list_timed_out_transactions
listed-Started busy now db_now me lease db =
    All-transactions (λ r. timed_out busy db_now r ≡ true) Started (λ r. r.tx) _
      (λ r h. Reach-is_started r.status (started_first busy db_now r h))
      (All-take _ 50 _ (
        All-order_by _ timeout_key _ (
          All-map _ _ (λ r h. h.1) _
            (All-select (λ r. Unit {0}) (timed_out busy db_now) db.transactions
              (All-Unit db.transactions)))))

submit-db : (id : String) (w : World) → (submit id w).1.db ≡ w.db
unfolding submit
submit-db id w = elim (Bool-cases (any_row (str_eq id) w.active_tx)) [
  | inl e ↦ rw e refl
  | inr e ↦ elim (Bool-cases (ltb (length w.task_queue) queue_capacity)) [
    | inl k ↦ rw (e, k) refl
    | inr k ↦ rw (e, k) refl
  ]
]

module _ (env : Env) (others : (n : ℕ) (db : Db) → Evolves db (env.others n db)) where
  abbrev rely : Rely env Evolves
  rely = Evolves-rely env others

  Follows-submit_or_release : (id : String) → Follows Evolves (submit_or_release env id)
  unfolding submit_or_release submit
  Follows-submit_or_release id =
      Follows-bind rely _ _
        (record {
          at = λ w.
              Evolves-frame w.db (submit id w).1.db (ap (λ db. db.transactions) (submit-db id w));
        })
        λ queued. Follows-if rely queued _ _ (Follows-pure rely tt) (Follows-release env others id)

  Follows-release_all : (txs : List Transaction) → Follows Evolves (release_all env txs)
  unfolding release_all
  Follows-release_all [] = Follows-pure rely tt
  Follows-release_all (tx ∷ txs) =
      Follows-bind rely _ _ (Follows-release env others tx.id) λ _. Follows-release_all txs

  Follows-recover_all : (txs : List Transaction) → Follows Evolves (recover_all env txs)
  unfolding recover_all
  Follows-recover_all [] = Follows-pure rely tt
  Follows-recover_all (tx ∷ txs) = Follows-bind rely _ _ (Follows-ask rely _) λ stop.
      Follows-if rely stop _ _ (Follows-release_all (tx ∷ txs))
        (Follows-bind rely _ _ (Follows-submit_or_release tx.id) λ _. Follows-recover_all txs)

  Follows-recovery_scan : Follows Evolves (recovery_scan env)
  unfolding recovery_scan
  Follows-recovery_scan = Follows-bind rely _ _ (Follows-ask rely _) λ stop.
      Follows-if rely stop _ _ (Follows-pure rely tt) (
        Follows-bind rely _ _ (Follows-ask rely _) λ n.
          Follows-bind rely _ _
            (Follows-attempt rely _ (
              Follows-statement rely _ (λ now db_now db.
                list_recoverable_transactions-Evolves (env.locked_txs n) now db_now env.instance_id
                  100 env.lease_duration db)))
            λ txs. Follows-recover_all (listed env txs))

  Follows-time_out_all :
      (txs : List Transaction) → All Started txs → Follows Evolves (time_out_all env txs)
  unfolding time_out_all
  Follows-time_out_all [] started = Follows-pure rely tt
  Follows-time_out_all (tx ∷ txs) started =
      Follows-bind rely _ _
        (Follows-attempt rely _ (Follows-update_status_cas env others tx.id _ _ _ started.0))
        λ swapped.
          Follows-bind rely _ _
            (Follows-if rely (renewed env swapped) _ _ (Follows-submit_or_release tx.id)
              (Follows-release env others tx.id))
            λ _. Follows-time_out_all txs started.1

  time_out_listed :
      (r : Result (List Transaction)) (w : World)
      → ((txs : List Transaction) → r ≡ ok txs → All Started txs)
      → Evolves w.db (time_out_all env (listed env r) w).1.db
  time_out_listed (ok txs) w h = (Follows-time_out_all txs (h txs refl)).at w
  time_out_listed (err e) w h = (Follows-time_out_all [] tt).at w

  Follows-scan_timeouts : Follows Evolves (scan_timeouts env)
  unfolding scan_timeouts
  Follows-scan_timeouts = Follows-bind rely _ _ (Follows-ask rely _) λ n.
      Follows-answer rely
        (λ now db_now db.
          let (txs, db') =
            list_timed_out_transactions (env.locked_txs n) now db_now env.instance_id
              env.lease_duration db in
          (ok txs, db'))
        (λ txs. time_out_all env (listed env txs)) (λ txs db. All Started txs)
        (λ now db_now db.
          list_timed_out_transactions-Evolves (env.locked_txs n) now db_now env.instance_id
            env.lease_duration db)
        (λ now db_now db txs e.
          rw (ok_is e)
            (listed-Started (env.locked_txs n) now db_now env.instance_id env.lease_duration db))
        (λ r w q. time_out_listed r w q)
    where
      ok_is : {a b : List Transaction} → ok a ≡ ok b → b ≡ a
      ok_is e = cc e

  -- If what the other sessions write moves transactions along their life only, then so does the scan
  -- that compensates the transactions past their timeout: a transaction that is in the store is there
  -- afterwards, with a status that its status can become.
  pub scan_timeouts-Evolves :
      (w : World) (id : String) (r : TxRow)
      → find_row (tx_is id) w.db.transactions ≡ some r
      → RowEvolves id (scan_timeouts env w).1.db.transactions r
  scan_timeouts-Evolves = Follows-scan_timeouts.at

  -- Under the same condition on the other sessions, the recovery scan, which claims, queues and
  -- releases transactions, leaves every transaction of the store with a status that its status can
  -- become.
  pub recovery_scan-Evolves :
      (w : World) (id : String) (r : TxRow)
      → find_row (tx_is id) w.db.transactions ≡ some r
      → RowEvolves id (recovery_scan env w).1.db.transactions r
  recovery_scan-Evolves = Follows-recovery_scan.at
