-- ===== src/Saga/Store/Exclusion/Runs.antt =====
-- What any sequence of actions of other instances does to a lease.
use nsp_platform.Base.{
  ℕ, ◌+◌, ◌≡◌, refl, ap, true, false, String, List, [], ◌∷◌, str_eq, Bool-cases, inl, inr,
  str_eq→eq, sym, ◌∙◌,
}
use nsp_platform.Base.Lists.{All, any_row}
use nsp_platform.Base.Rows.{All-map, All-append, All-update_where, any_row-false}
use nsp_platform.Saga.Store.Tables.{TxRow, Db, tx_is}
use nsp_platform.Saga.Store.Leases.{claimable, claim_transaction}
use nsp_platform.Saga.Store.Exclusion.{IsLeased, act, Spares, Event, run, WithinLease, Distinct}
use nsp_platform.Saga.Store.Exclusion.Actions.{act-Respects}

-- While a transaction is leased, no sequence of actions by other instances (claims, releases,
-- recovery and timeout scans, status changes), in any interleaving, moves or shortens the lease,
-- and none of them claims that transaction.
pub run-IsLeased :
    (id owner : String) (until : ℕ) (events : List Event) (db : Db)
    → IsLeased id owner until db
    → WithinLease owner until events
    → IsLeased id owner until (run events db).1 × Spares id (run events db).0
unfolding run
run-IsLeased id owner until [] db h w = (h, tt)
run-IsLeased id owner until ((now, db_now, me, a) ∷ events) db h w =
    let (kept, spared) = act-Respects id owner me until db_now w.0.0 w.0.1 now a db h in
    let (kept', spared') = run-IsLeased id owner until events (act now db_now me a db).1 kept w.1 in
    (kept', All-append _ _ _ spared spared')

other-not-claimable :
    (id me : String) (db_now : ℕ) (r : TxRow)
    → tx_is id r ≡ false
    → claimable id me db_now r ≡ false
other-not-claimable id me db_now r h = rw h

-- The one row of the id is the row that was claimed.
claimed_row :
    (id me : String) (db_now : ℕ) (rows : List TxRow)
    → Distinct rows
    → any_row (claimable id me db_now) rows ≡ true
    → All (λ r. tx_is id r ≡ true → claimable id me db_now r ≡ true) rows
claimed_row id me db_now [] d won = tt
claimed_row id me db_now (r ∷ rows) d won = elim (Bool-cases (tx_is id r)) [
  | inl is ↦
      let same = str_eq→eq r.id id is in
      let others =
        All-map (λ x. str_eq x.id r.id ≡ false) (λ x. tx_is id x ≡ false)
          (λ x e. ap (str_eq x.id) (sym same) ∙ e) rows d.0 in
      let lost =
        any_row-false (claimable id me db_now) rows
          (All-map _ _ (λ x e. other-not-claimable id me db_now x e) rows others) in
      (
        (λ _. elim (Bool-cases (claimable id me db_now r)) [
          | inl e ↦ e
          | inr e ↦ cc (lost, rw (e, any_row) at won)
        ]),
        All-map _ _ (λ x e is'. cc (e, is')) rows others,
      )
  | inr isnt ↦
      let lost = other-not-claimable id me db_now r isnt in
      ((λ is. cc (is, isnt)), claimed_row id me db_now rows d.1 (rw (lost, any_row) at won))
]

-- A claim that succeeds excludes the other instances: until the lease has run out by the clock of
-- the database, no interleaving of their actions moves or shortens it or claims the transaction.
pub claim-IsLeased :
    (now db_now lease : ℕ) (id me : String) (events : List Event) (db : Db)
    → Distinct db.transactions
    → (claim_transaction now db_now id me lease db).0 ≡ true
    → WithinLease me (now + lease) events
    → let r = run events (claim_transaction now db_now id me lease db).1 in
      IsLeased id me (now + lease) r.1 × Spares id r.0
unfolding claim_transaction
claim-IsLeased now db_now lease id me events db d won w =
    run-IsLeased id me (now + lease) events _
      (All-update_where _ _ (claimable id me db_now) _ db.transactions (λ r k e is. (refl, refl))
        (λ r k e is. cc (e, k is)) (claimed_row id me db_now db.transactions d won))
      w
