-- ===== src/Saga/Store/Exclusion/Actions.antt =====
-- What one action of another instance does to a lease.
use nsp_platform.Base.{
  ℕ, ◌+◌, ◌≤◌, ◌≡◌, refl, ap, Bool, true, false, String, List, [], ◌∷◌, map, str_eq, arith,
  Bool-cases, inl, inr, str_eq→eq, sym, ◌∙◌,
}
use nsp_platform.Base.Lists.{All, update_where, any_row, select, order_by, take}
use nsp_platform.Base.Rows.{
  All-map, All-update_where, All-select, All-take, All-order_by, any_row-false,
}
use nsp_platform.Saga.Store.Tables.{TxRow, Db, tx_is}
use nsp_platform.Saga.Store.Transactions.{
  tx_in, update_transaction_status, update_transaction_step, update_transaction_status_cas,
}
use nsp_platform.Saga.Store.Leases.{
  lock_row, claimable, claim_transaction, held_by, unlock_row, release_transaction, is_free,
  is_listed, recoverable, list_recoverable_transactions, timed_out, list_timed_out_transactions,
  timeout_key, claim_all,
}
use nsp_platform.Saga.Store.Exclusion.{
  LeasedRow, IsLeased, Action, claims, releases, recovers, scans_timeouts, sets_status,
  swaps_status, sets_step, won_id, act, Spares,
}

module _ (id owner me : String) (until db_now : ℕ) (ne : str_eq owner me ≡ false)
    (live : db_now ≤ until) where
  not-claimable :
      (j : String) (r : TxRow)
      → LeasedRow id owner until r
      → tx_is id r ≡ true
      → claimable j me db_now r ≡ false
  not-claimable j r h e = ground (arith, h e)

  not-held :
      (j : String) (r : TxRow)
      → LeasedRow id owner until r
      → tx_is id r ≡ true
      → held_by j me r ≡ false
  not-held j r h e = ground (arith, h e)

  not-free : (r : TxRow) → LeasedRow id owner until r → tx_is id r ≡ true → is_free db_now r ≡ false
  not-free r h e = ground (arith, h e)

  -- An update keeps the lease if it keeps the ids and passes over the leased row.
  Leased-update :
      (p : TxRow → Bool) (f : TxRow → TxRow) (rows : List TxRow)
      → ((r : TxRow) → (f r).id ≡ r.id)
      → ((r : TxRow) → LeasedRow id owner until r → tx_is id r ≡ true → p r ≡ false)
      → All (LeasedRow id owner until) rows
      → All (LeasedRow id owner until) (update_where p f rows)
  Leased-update p f rows keeps misses =
      All-update_where _ _ p f rows
        (λ r h e is. cc (e, misses r h (ap (λ x. str_eq x id) (sym (keeps r)) ∙ is))) (λ r h e. h)

  -- A selection that no leased row passes.
  listed_spares :
      (p : TxRow → Bool) (key : TxRow → ℕ) (n : ℕ) (db : Db)
      → ((r : TxRow) → LeasedRow id owner until r → tx_is id r ≡ true → p r ≡ false)
      → IsLeased id owner until db
      → All (λ r. tx_is id r ≡ false) (take n (order_by key (select p db.transactions)))
  listed_spares p key n db misses h = All-take _ n _ (
      All-order_by _ key _ (
        All-map _ _
          (λ r k. elim (Bool-cases (tx_is id r)) [ inl e ↦ cc (k.1, misses r k.0 e) | inr e ↦ e ]) _
          (All-select _ p db.transactions h)))

  not-listed :
      (rows : List TxRow) (r : TxRow)
      → All (λ r. tx_is id r ≡ false) rows
      → tx_is id r ≡ true
      → is_listed rows r ≡ false
  not-listed [] r h e = refl
  not-listed (x ∷ rows) r h e =
      let miss = ap (str_eq x.id) (str_eq→eq r.id id e) ∙ h.0 in
      rw (miss, is_listed) (not-listed rows r h.1 e)

  Spares-map :
      (rows : List TxRow)
      → All (λ r. tx_is id r ≡ false) rows
      → Spares id (map (λ tx. tx.id) (map (λ r. r.tx) rows))
  Spares-map [] h = tt
  Spares-map (r ∷ rows) h = (h.0, Spares-map rows h.1)

  -- What an action leaves of the lease, and what it may claim.
  abbrev pub Respects : List String × Db → Type 0
  Respects r = IsLeased id owner until r.1 × Spares id r.0

  claim_all-Respects :
      (now lease : ℕ) (rows : List TxRow) (db : Db)
      → All (λ r. tx_is id r ≡ false) rows
      → IsLeased id owner until db
      → let r = claim_all now db_now me lease rows db in
        IsLeased id owner until r.1 × Spares id (map (λ tx. tx.id) r.0)
  claim_all-Respects now lease rows db h k = (
    Leased-update (is_listed rows) (lock_row me (now + lease) db_now) db.transactions (λ r. refl)
        (λ r l e. not-listed rows r h e) k,
    Spares-map rows h,
  )

  claimed_other :
      (j : String) (db : Db)
      → IsLeased id owner until db
      → any_row (claimable j me db_now) db.transactions ≡ true
      → str_eq j id ≡ false
  claimed_other j db h won = elim (Bool-cases (str_eq j id)) [
    | inr e ↦ e
    | inl e ↦ cc (
      won,
      any_row-false (claimable j me db_now) db.transactions (
          All-map _ _
            (λ r l. elim (Bool-cases (tx_is id r)) [
              | inl is ↦ not-claimable j r l is
              | inr isnt ↦ rw (str_eq→eq j id e) (ground (arith, isnt))
            ])
            _ h),
    )
  ]

  -- An update of the status columns touches no lease.
  Leased-columns :
      (p : TxRow → Bool) (f : TxRow → TxRow) (rows : List TxRow)
      → ((r : TxRow) → LeasedRow id owner until r → LeasedRow id owner until (f r))
      → All (LeasedRow id owner until) rows
      → All (LeasedRow id owner until) (update_where p f rows)
  Leased-columns p f rows keeps = All-update_where _ _ p f rows (λ r h e. keeps r h) (λ r h e. h)

  Spares-won_id :
      (j : String) (won : Bool) → (won ≡ true → str_eq j id ≡ false) → Spares id (won_id won j)
  Spares-won_id j true h = (h refl, tt)
  Spares-won_id j false h = tt

  claim-Respects :
      (now : ℕ) (j : String) (lease : ℕ) (db : Db)
      → IsLeased id owner until db
      → Respects (act now db_now me (claims j lease) db)
  unfolding act claim_transaction
  claim-Respects now j lease db h = (
    Leased-update (claimable j me db_now) (lock_row me (now + lease) db_now) db.transactions
        (λ r. refl) (λ r l e. not-claimable j r l e) h,
    Spares-won_id j _ (claimed_other j db h),
  )

  pub act-Respects :
      (now : ℕ) (a : Action) (db : Db)
      → IsLeased id owner until db
      → Respects (act now db_now me a db)
  unfolding act release_transaction list_recoverable_transactions list_timed_out_transactions
      update_transaction_status update_transaction_status_cas update_transaction_step
  act-Respects now (claims j lease) db h = claim-Respects now j lease db h
  act-Respects now (releases j) db h = (
    Leased-update (held_by j me) (unlock_row db_now) db.transactions (λ r. refl)
        (λ r l e. not-held j r l e) h,
    tt,
  )
  act-Respects now (recovers busy batch lease) db h =
      claim_all-Respects now lease _ db
        (listed_spares (recoverable busy db_now) (λ r. r.created_at) batch db
          (λ r l e. ground (arith, not-free r l e)) h)
        h
  act-Respects now (scans_timeouts busy lease) db h =
      claim_all-Respects now lease _ db
        (listed_spares (timed_out busy db_now) timeout_key 50 db
          (λ r l e. ground (arith, not-free r l e)) h)
        h
  act-Respects now (sets_status j status e) db h =
      elim (Bool-cases (any_row (tx_is j) db.transactions)) [
        | inl b ↦ rw b (Leased-columns (tx_is j) _ db.transactions (λ r k. k) h, tt)
        | inr b ↦ rw b (h, tt)
      ]
  act-Respects now (swaps_status j old new e) db h =
      (Leased-columns (tx_in j old) _ db.transactions (λ r k. k) h, tt)
  act-Respects now (sets_step j step) db h = elim (Bool-cases (any_row (tx_is j) db.transactions)) [
    | inl b ↦ rw b (Leased-columns (tx_is j) _ db.transactions (λ r k. k) h, tt)
    | inr b ↦ rw b (h, tt)
  ]
