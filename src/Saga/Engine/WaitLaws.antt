-- ===== src/Saga/Engine/WaitLaws.antt =====
-- What waitForTransaction returns, and that it does.
use mathlib.Core.Path.{subst}
use nsp_platform.Base.{
  ℕ, zero, suc, leb, ◌≡◌, refl, sym, ◌∙◌, String, Bool, true, false, Option, some, none, [], ◌∷◌,
  Bool-cases, inl, inr, str_eq, str_eq→eq,
}
use nsp_platform.Base.Text.{texts, show_nat}
use nsp_platform.Saga.Definition.{Transaction}
use nsp_platform.Saga.Errors.{
  Result, Error, ok, err, is_error, transaction_failed, transaction_not_found,
  transaction_disappeared, wrap, prefix,
}
use nsp_platform.Saga.Runtime.{
  Env, World, M, Fault, fails, works, loses_answer, settle, ◌>>=◌, continue, pure, raise, annotate,
  with_prefix, statement, query, on_option,
}
use nsp_platform.Saga.Store.Tables.{Db}
use nsp_platform.Saga.Store.Transactions.{get_transaction}
use nsp_platform.Saga.Store.Steps.{get_steps}
use nsp_platform.Saga.Engine.{TransactionStatus, query_transaction, transaction_view}
use nsp_platform.Saga.Engine.Wait.{
  Waited, Loop, ctx_error, stop, after_wait, on_status, on_failure, on_query, wait_loop,
  wait_for_transaction, query_retry_limit,
}

-- No error of a query says that the transaction has failed.
abbrev Unfailed : {A : Type 0} → Result A → Type 0
Unfailed (ok a) = Unit
Unfailed (err e) = is_error transaction_failed e ≡ false

module _ (env : Env) where
  settle-Unfailed :
      {A : Type 0} (text : String) (fault : Fault) (f : Db → A) (db : Db)
      → Unfailed (with_prefix text (settle env fault db (ok (f db), db)).0)
  settle-Unfailed text works f db = tt
  settle-Unfailed text (fails s) f db = refl
  settle-Unfailed text (loses_answer s) f db = refl

  query-Unfailed :
      {A : Type 0} (text : String) (f : Db → A) (w : World)
      → Unfailed (annotate text (query env f) w).0
  unfolding annotate query statement
  query-Unfailed text f w = settle-Unfailed text (env.fault w.tick) f (env.others w.tick w.db)

  bind-Unfailed :
      {A B : Type 0} (m : M A) (f : A → M B) (w : World)
      → Unfailed (m w).0
      → ((a : A) → Unfailed (f a (m w).1).0)
      → Unfailed ((m >>= f) w).0
  unfolding ◌>>=◌
  bind-Unfailed {A = A} {B = B} m f w h k = go (m w) h k
    where
      go :
          (r : Result A × World)
          → Unfailed r.0
          → ((a : A) → Unfailed (f a r.1).0)
          → Unfailed (continue f r).0
      go (ok a, w') h k = k a
      go (err e, w') h k = h

  query_transaction-Unfailed : (id : String) (w : World) → Unfailed (query_transaction env id w).0
  unfolding query_transaction on_option raise pure
  query_transaction-Unfailed id w =
      bind-Unfailed (annotate "failed to get transaction" (query env (get_transaction id))) _ w
        (query-Unfailed "failed to get transaction" (get_transaction id) w) λ found. viewed found _
    where
      viewed :
          (found : Option Transaction) (w' : World)
          → Unfailed
              (on_option found
                (λ tx. annotate "failed to get steps" (query env (get_steps id)) >>= λ steps.
                  pure (transaction_view tx steps))
                (raise (wrap transaction_not_found id))
                w').0
      viewed none w' = refl
      viewed (some tx) w' =
          bind-Unfailed (annotate "failed to get steps" (query env (get_steps id))) _ w'
            (query-Unfailed "failed to get steps" (get_steps id) w') λ steps. tt

-- What a return of the loop promises: success with a succeeded status, or else an error, which
-- says that the transaction has failed only with a failed status.
abbrev Judged : Option TransactionStatus → Option Error → Type 0
Judged status none = (st : TransactionStatus) × (status ≡ some st) × (st.status ≡ "succeeded")
Judged status (some e) =
    is_error transaction_failed e ≡ true
    → (st : TransactionStatus) × (status ≡ some st) × (st.status ≡ "failed")

abbrev Returned : Option Waited → Type 0
Returned none = Unit
Returned (some r) = Judged r.status r.error

not_failed :
    (last : Option TransactionStatus) (e : Error)
    → is_error transaction_failed e ≡ false
    → Returned (stop last e)
not_failed last e h k = cc (sym h ∙ k)

ctx_error-Unfailed :
    (by_deadline : Bool) → is_error transaction_failed (ctx_error by_deadline) ≡ false
ctx_error-Unfailed true = refl
ctx_error-Unfailed false = refl

module _ (env : Env) (by_deadline : Bool) where
  after_wait-Returned :
      (again : Loop) (last : Option TransactionStatus) (r : Bool × World)
      → ((w : World) → Returned (again w).0)
      → Returned (after_wait env by_deadline again last r).0
  after_wait-Returned again last (true, w) h =
      not_failed last (ctx_error by_deadline) (ctx_error-Unfailed by_deadline)
  after_wait-Returned again last (false, w) h = h w

  on_status-Returned :
      (again : Loop) (status : TransactionStatus) (w : World)
      → ((w : World) → Returned (again w).0)
      → Returned (on_status env by_deadline again status w).0
  unfolding on_status
  on_status-Returned again status w h = elim (Bool-cases (str_eq status.status "succeeded")) [
    | inl e ↦ rw e (status, refl, str_eq→eq status.status "succeeded" e)
    | inr e ↦ elim (Bool-cases (str_eq status.status "failed")) [
      | inl f ↦ rw (e, f) (λ _. (status, refl, str_eq→eq status.status "failed" f))
      | inr f ↦ rw (e, f) (after_wait-Returned again (some status) _ h)
    ]
  ]

  on_failure-Returned :
      (id : String) (again : Loop) (last : Option TransactionStatus) (failures : ℕ) (e : Error)
      (w : World)
      → is_error transaction_failed e ≡ false
      → ((w : World) → Returned (again w).0)
      → Returned (on_failure env by_deadline id again last failures e w).0
  unfolding on_failure
  on_failure-Returned id again last failures e w unfailed h =
      elim (Bool-cases (is_error transaction_not_found e)) [
        | inl f ↦ rw f (not_failed last (wrap transaction_disappeared id) refl)
        | inr f ↦ elim (Bool-cases (leb query_retry_limit failures)) [
          | inl g ↦
              rw (f, g)
                (not_failed last
                  (prefix
                    (texts (
                      "failed to query transaction "
                      ∷ id
                      ∷ " after "
                      ∷ show_nat failures
                      ∷ " attempts"
                      ∷ []))
                    e)
                  unfailed)
          | inr g ↦ rw (f, g) (after_wait-Returned again last _ h)
        ]
      ]

  on_query-Returned :
      (id : String) (rest : Option TransactionStatus → ℕ → Loop) (last : Option TransactionStatus)
      (failures : ℕ) (r : Result TransactionStatus × World)
      → Unfailed r.0
      → ((last : Option TransactionStatus) (failures : ℕ) (w : World)
          → Returned (rest last failures w).0)
      → Returned (on_query env by_deadline id rest last failures r).0
  on_query-Returned id rest last failures (ok status, w) u h =
      on_status-Returned (rest (some status) 0) status w (h (some status) 0)
  on_query-Returned id rest last failures (err e, w) u h =
      on_failure-Returned id (rest last (suc failures)) last (suc failures) e w u
        (h last (suc failures))

  wait_loop-Returned :
      (fuel : ℕ) (id : String) (last : Option TransactionStatus) (failures : ℕ) (w : World)
      → Returned (wait_loop env by_deadline fuel id last failures w).0
  unfolding wait_loop
  wait_loop-Returned zero id last failures w = tt
  wait_loop-Returned (suc fuel) id last failures w =
      on_query-Returned id (wait_loop env by_deadline fuel id) last failures _
        (query_transaction-Unfailed env id w) (wait_loop-Returned fuel id)

  wait-Judged :
      (fuel : ℕ) (id : String) (w : World) (r : Waited)
      → (wait_for_transaction env by_deadline fuel id w).0 ≡ some r
      → Judged r.status r.error
  unfolding wait_for_transaction
  wait-Judged fuel id w r h = subst Returned h (wait_loop-Returned fuel id none 0 w)

  -- If waitForTransaction returns no error, the status that it returns is that of a succeeded
  -- transaction, whatever the database and the other sessions do.
  pub wait-succeeded :
      (fuel : ℕ) (id : String) (w : World) (r : Waited)
      → (wait_for_transaction env by_deadline fuel id w).0 ≡ some r
      → r.error ≡ none
      → (st : TransactionStatus) × (r.status ≡ some st) × (st.status ≡ "succeeded")
  wait-succeeded fuel id w r h e = subst (Judged r.status) e (wait-Judged fuel id w r h)

  -- If the error of waitForTransaction is ErrTransactionFailed, the status that it returns is that
  -- of a failed transaction.
  pub wait-failed :
      (fuel : ℕ) (id : String) (w : World) (r : Waited) (e : Error)
      → (wait_for_transaction env by_deadline fuel id w).0 ≡ some r
      → r.error ≡ some e
      → is_error transaction_failed e ≡ true
      → (st : TransactionStatus) × (r.status ≡ some st) × (st.status ≡ "failed")
  wait-failed fuel id w r e h k failed =
      subst (Judged r.status) k (wait-Judged fuel id w r h) failed
