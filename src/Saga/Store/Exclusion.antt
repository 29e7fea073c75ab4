-- ===== src/Saga/Store/Exclusion.antt =====
-- The lease of saga/store.go between instances: their actions on saga_transactions in any order.
pub mod Actions
pub mod Runs
use nsp_platform.Base.{
  ℕ, ◌+◌, ◌≤◌, ◌≡◌, ◌≢◌, refl, ap, Bool, true, false, not, ◌&&◌, ◌||◌, String, List, [], ◌∷◌, ◌++◌,
  Option, none, some, map, str_eq, eq_iff, arith, ltb, Bool-cases, ◌⊎◌, inl, inr, str_eq→eq, sym,
  ◌∙◌,
}
use nsp_platform.Base.Lists.{All, update_where, any_row, select, order_by, take}
use nsp_platform.Base.Rows.{
  All-map, All-append, All-update_where, All-select, All-take, All-order_by, any_row-false,
  update_where-none,
}
use nsp_platform.Saga.Definition.{Transaction, TxStatus}
use nsp_platform.Saga.Store.Tables.{TxRow, Db, tx_is, is_before, is_null, is_value, is_active}
use nsp_platform.Saga.Store.Transactions.{
  tx_in, update_transaction_status, update_transaction_step, update_transaction_status_cas,
}
use nsp_platform.Saga.Store.Leases.{
  lock_row, claimable, claim_transaction, held_by, unlock_row, release_transaction, is_free,
  is_listed, recoverable, list_recoverable_transactions, timed_out, list_timed_out_transactions,
  timeout_key, claim_all,
}

-- The transaction `id` is leased to `owner` until `until`.
abbrev pub LeasedRow : String → String → ℕ → TxRow → Type 0
LeasedRow id owner until r =
    tx_is id r ≡ true → (r.locked_by ≡ some owner) × (r.locked_until ≡ some until)

abbrev pub IsLeased : String → String → ℕ → Db → Type 0
IsLeased id owner until db = All (LeasedRow id owner until) db.transactions

-- What another instance can do to the rows of saga_transactions, with the arguments of the store's
-- operations. The two insertions are left out: they change no row, and the primary key keeps them from
-- an id that is there.
pub data Action : Type 0 where
  claims : String → ℕ → Action
  releases : String → Action
  recovers : (String → Bool) → ℕ → ℕ → Action
  scans_timeouts : (String → Bool) → ℕ → Action
  sets_status : String → TxStatus → String → Action
  swaps_status : String → TxStatus → TxStatus → String → Action
  sets_step : String → ℕ → Action

abbrev pub won_id : Bool → String → List String
won_id true id = id ∷ []
won_id false id = []

-- An action of an instance at the times that it and the database read, and the transactions that
-- it has claimed by it.
pub act : ℕ → ℕ → String → Action → Db → List String × Db
act now db_now me (claims id lease) db =
    let r = claim_transaction now db_now id me lease db in (won_id r.0 id, r.1)
act now db_now me (releases id) db = ([], release_transaction db_now id me db)
act now db_now me (recovers busy batch lease) db =
    let r = list_recoverable_transactions busy now db_now me batch lease db in
    (map (λ tx. tx.id) r.0, r.1)
act now db_now me (scans_timeouts busy lease) db =
    let r = list_timed_out_transactions busy now db_now me lease db in (map (λ tx. tx.id) r.0, r.1)
act now db_now me (sets_status id status e) db =
    ([], (update_transaction_status now db_now id status e db).1)
act now db_now me (swaps_status id old new e) db =
    ([], (update_transaction_status_cas now db_now id old new e db).1)
act now db_now me (sets_step id step) db = ([], (update_transaction_step db_now id step db).1)

abbrev pub Spares : String → List String → Type 0
Spares id = All (λ x. str_eq x id ≡ false)

-- A session of some instance: the times that it and the database read, its name, and its action.
abbrev pub Event : Type 0
Event = ℕ × ℕ × String × Action

-- The sessions one after the other, and all the transactions that they claimed.
pub run : List Event → Db → List String × Db
run [] db = ([], db)
run ((now, db_now, me, a) ∷ events) db =
    let (won, db') = act now db_now me a db in
    let (more, db'') = run events db' in (won ++ more, db'')

-- The events are those of other instances, while the lease runs by the clock of the database.
abbrev pub WithinLease : String → ℕ → List Event → Type 0
WithinLease owner until = All (λ e. (str_eq owner e.2 ≡ false) × (e.1 ≤ until))

-- The primary key of saga_transactions.
abbrev pub Distinct : List TxRow → Type 0
Distinct [] = Unit
Distinct (r ∷ rows) = All (λ x. str_eq x.id r.id ≡ false) rows × Distinct rows
