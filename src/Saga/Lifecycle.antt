-- ===== src/Saga/Lifecycle.antt =====
-- The life of a transaction as saga/coordinator.go drives it, on the rows of saga_transactions.
pub mod Writes
pub mod Forward
pub mod Compensation
pub mod Drive
pub mod Scans
pub mod Closing
use nsp_platform.Base.{
  String, ◌≡◌, refl, sym, ap, ◌∙◌, Bool, true, false, List, [], ◌∷◌, Option, none, some, ◌⊎◌, inl,
  inr, Bool-cases, str_eq,
}
use nsp_platform.Base.Lists.{find_row, update_where}
use nsp_platform.Saga.Definition.{Transaction, TxStatus}
use nsp_platform.Saga.Store.Tables.{TxRow, Db, tx_is}

-- What a status can become: pending, running, then succeeded; or running, compensating, then failed.
pub data Reach : TxStatus → TxStatus → Type 0 where
  stays : {s : TxStatus} → Reach s s
  starts : {s : TxStatus} → Reach TxStatus.running s → Reach TxStatus.pending s
  succeeds : {s : TxStatus} → Reach TxStatus.succeeded s → Reach TxStatus.running s
  compensates : {s : TxStatus} → Reach TxStatus.compensating s → Reach TxStatus.running s
  fails : {s : TxStatus} → Reach TxStatus.failed s → Reach TxStatus.compensating s

pub Reach-trans : {s t u : TxStatus} → Reach s t → Reach t u → Reach s u
Reach-trans Reach.stays k = k
Reach-trans (Reach.starts h) k = Reach.starts (Reach-trans h k)
Reach-trans (Reach.succeeds h) k = Reach.succeeds (Reach-trans h k)
Reach-trans (Reach.compensates h) k = Reach.compensates (Reach-trans h k)
Reach-trans (Reach.fails h) k = Reach.fails (Reach-trans h k)

abbrev pub RowEvolves : String → List TxRow → TxRow → Type 0
RowEvolves id rows r =
    (r' : TxRow) × (find_row (tx_is id) rows ≡ some r') × Reach r.status r'.status

-- Every transaction that is there before is there afterwards, with a status it can become.
abbrev pub Evolves : Db → Db → Type 0
Evolves a b =
    (id : String) (r : TxRow)
    → find_row (tx_is id) a.transactions ≡ some r
    → RowEvolves id b.transactions r

pub find_row-head :
    {A : Type 0} (p : A → Bool) (x : A) (rows : List A) (r : A)
    → find_row p (x ∷ rows) ≡ some r
    → ((p x ≡ true) × (x ≡ r)) ⊎ ((p x ≡ false) × (find_row p rows ≡ some r))
find_row-head p x rows r h = elim (Bool-cases (p x)) [
  | inl e ↦ inl (e, cc (rw (e, find_row) at h))
  | inr e ↦ inr (e, rw (e, find_row) at h)
]

pub find_row-holds :
    {A : Type 0} (p : A → Bool) (rows : List A) (r : A) → find_row p rows ≡ some r → p r ≡ true
find_row-holds p [] r h = cc h
find_row-holds p (x ∷ rows) r h = elim (find_row-head p x rows r h) [
  | inl k ↦ cc (k.0, k.1)
  | inr k ↦ find_row-holds p rows r k.1
]

RowEvolves-hit :
    (id : String) (y : TxRow) (ys : List TxRow) (r : TxRow)
    → tx_is id y ≡ true
    → Reach r.status y.status
    → RowEvolves id (y ∷ ys) r
RowEvolves-hit id y ys r e h = (y, rw (e, find_row) refl, h)

RowEvolves-miss :
    (id : String) (y : TxRow) (ys : List TxRow) (r : TxRow)
    → tx_is id y ≡ false
    → RowEvolves id ys r
    → RowEvolves id (y ∷ ys) r
RowEvolves-miss id y ys r e (r', h, k) = (r', rw (e, find_row) h, k)

module _ (id : String) (p : TxRow → Bool) (f : TxRow → TxRow)
    (keeps : (x : TxRow) → (f x).id ≡ x.id) where
  update_where-head :
      (x : TxRow) (rows : List TxRow)
      → tx_is id x ≡ true
      → (p x ≡ true → Reach x.status (f x).status)
      → RowEvolves id (update_where p f (x ∷ rows)) x
  update_where-head x rows e moves = elim (Bool-cases (p x)) [
    | inl on ↦
        rw (on, update_where)
          (RowEvolves-hit id (f x) _ x (ap (λ i. str_eq i id) (keeps x) ∙ e) (moves on))
    | inr off ↦ rw (off, update_where) (RowEvolves-hit id x _ x e Reach.stays)
  ]

  update_where-tail :
      (x : TxRow) (rows : List TxRow) (r : TxRow)
      → tx_is id x ≡ false
      → RowEvolves id (update_where p f rows) r
      → RowEvolves id (update_where p f (x ∷ rows)) r
  update_where-tail x rows r e h = elim (Bool-cases (p x)) [
    | inl on ↦
        rw (on, update_where) (RowEvolves-miss id (f x) _ r (ap (λ i. str_eq i id) (keeps x) ∙ e) h)
    | inr off ↦ rw (off, update_where) (RowEvolves-miss id x _ r e h)
  ]

  -- An update that keeps the ids moves the row of a transaction as it moves that row.
  pub RowEvolves-update_where :
      (rows : List TxRow) (r : TxRow)
      → find_row (tx_is id) rows ≡ some r
      → (p r ≡ true → Reach r.status (f r).status)
      → RowEvolves id (update_where p f rows) r
  RowEvolves-update_where [] r h moves = cc h
  RowEvolves-update_where (x ∷ rows) r h moves = elim (find_row-head (tx_is id) x rows r h) [
    | inl k ↦ rw (sym k.1) (update_where-head x rows k.0 (rw (sym k.1) at moves))
    | inr k ↦ update_where-tail x rows r k.0 (RowEvolves-update_where rows r k.1 moves)
  ]
