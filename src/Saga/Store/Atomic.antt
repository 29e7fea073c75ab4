-- ===== src/Saga/Store/Atomic.antt =====
-- CreateTransactionWithSteps of saga/store.go inserts all or nothing, and GetTransaction reads back.
use nsp_platform.Base.{
  ℕ, String, ◌≡◌, refl, ap, ◌∙◌, Bool, true, false, List, [], ◌∷◌, ◌++◌, none, some, option_map,
  Bool-cases, inl, inr, str_eq_refl,
}
use nsp_platform.Base.Lists.{All, find_row, any_row}
use nsp_platform.Base.Rows.{All-any_row}
use nsp_platform.Json.{Object}
use nsp_platform.Saga.Definition.{Step, Transaction}
use nsp_platform.Saga.Errors.{Result, ok, err}
use nsp_platform.Saga.Store.Tables.{TxRow, Db, tx_is}
use nsp_platform.Saga.Store.Transactions.{
  get_transaction, create_transaction, insert_steps, violates, create_transaction_with_steps,
  tx_row, commit_or_rollback, then_steps,
}

find_row-snoc :
    {A : Type 0} (p : A → Bool) (rows : List A) (x : A)
    → All (λ r. p r ≡ false) rows
    → p x ≡ true
    → find_row p (rows ++ x ∷ []) ≡ some x
find_row-snoc p [] x h e = rw (e, find_row) refl
find_row-snoc p (r ∷ rows) x h e = rw (h.0, find_row) (find_row-snoc p rows x h.1 e)

module _ (jsonb : Object → Object) (timestamptz : ℕ → ℕ) where
  insert_steps-framed :
      (steps : List Step) (db : Db)
      → (insert_steps jsonb timestamptz steps db).1.transactions ≡ db.transactions
  unfolding insert_steps
  insert_steps-framed [] db = refl
  insert_steps-framed (step ∷ steps) db = elim (Bool-cases (violates jsonb timestamptz step db)) [
    | inl e ↦ rw e refl
    | inr e ↦ rw e (insert_steps-framed steps _)
  ]

  -- The stored transaction: the payload as a JSONB column and the times as TIMESTAMPTZ columns return
  -- them, and not finished.
  abbrev pub stored : Transaction → Transaction
  stored tx = record tx {
    payload = jsonb tx.payload;
    created_at = timestamptz tx.created_at;
    updated_at = timestamptz tx.updated_at;
    timeout_at = option_map timestamptz tx.timeout_at;
    finished_at = none;
  }

  create_transaction-find :
      (tx : Transaction) (db : Db)
      → (create_transaction jsonb timestamptz tx db).0 ≡ ok tt
      → find_row (tx_is tx.id) (create_transaction jsonb timestamptz tx db).1.transactions
        ≡ some (tx_row jsonb timestamptz tx)
  unfolding create_transaction
  create_transaction-find tx db h = elim (Bool-cases (any_row (tx_is tx.id) db.transactions)) [
    | inl e ↦ cc (rw e at h)
    | inr e ↦ rw e (
        find_row-snoc (tx_is tx.id) db.transactions (tx_row jsonb timestamptz tx)
          (All-any_row (tx_is tx.id) db.transactions e) (str_eq_refl tx.id))
  ]

  insert_steps-find :
      (id : String) (row : TxRow) (steps : List Step) (db : Db)
      → find_row (tx_is id) db.transactions ≡ some row
      → find_row (tx_is id) (insert_steps jsonb timestamptz steps db).1.transactions ≡ some row
  insert_steps-find id row steps db h = ap (find_row (tx_is id)) (insert_steps-framed steps db) ∙ h

  committed :
      (before : Db) (r : Result (Unit {0}) × Db)
      → (commit_or_rollback jsonb timestamptz before r).0 ≡ ok tt
      → (r.0 ≡ ok tt) × ((commit_or_rollback jsonb timestamptz before r).1 ≡ r.1)
  committed before (ok u, after) h = (h, refl)
  committed before (err e, after) h = cc h

  inserted :
      (id : String) (row : TxRow) (steps : List Step) (r : Result (Unit {0}) × Db)
      → (r.0 ≡ ok tt → find_row (tx_is id) r.1.transactions ≡ some row)
      → (then_steps jsonb timestamptz steps r).0 ≡ ok tt
      → find_row (tx_is id) (then_steps jsonb timestamptz steps r).1.transactions ≡ some row
  inserted id row steps (ok tt, db) h k = insert_steps-find id row steps db (h refl)
  inserted id row steps (err e, db) h k = cc k

  get_transaction-found :
      (tx : Transaction) (db : Db)
      → find_row (tx_is tx.id) db.transactions ≡ some (tx_row jsonb timestamptz tx)
      → get_transaction tx.id db ≡ some (stored tx)
  unfolding get_transaction
  get_transaction-found tx db h = rw (h, get_transaction) refl

  -- Where CreateTransactionWithSteps reports success, GetTransaction reads the transaction back, its
  -- payload as a JSONB column and its times as TIMESTAMPTZ columns return them, and not finished.
  pub get-create :
      (tx : Transaction) (steps : List Step) (db : Db)
      → (create_transaction_with_steps jsonb timestamptz tx steps db).0 ≡ ok tt
      → get_transaction tx.id (create_transaction_with_steps jsonb timestamptz tx steps db).1
        ≡ some (stored tx)
  unfolding create_transaction_with_steps
  get-create tx steps db h =
      let (k, same) =
        committed db
          (then_steps jsonb timestamptz steps (create_transaction jsonb timestamptz tx db)) h in
      get_transaction-found tx _ (
        ap (λ db. find_row (tx_is tx.id) db.transactions) same
        ∙ inserted tx.id (tx_row jsonb timestamptz tx) steps _ (create_transaction-find tx db) k)
