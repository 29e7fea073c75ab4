-- ===== src/Saga/Engine/Termination.antt =====
-- That the loop of waitForTransaction in saga/engine.go ends.
use nsp_platform.Base.{
  ℕ, zero, suc, ◌+◌, ◌≤◌, ◌<◌, leb, ◌≡◌, refl, sym, ap, ◌∙◌, String, Bool, true, false, Option,
  some, none, Bool-cases, inl, inr, str_eq, arith,
}
use nsp_platform.Saga.Definition.{Transaction}
use nsp_platform.Saga.Errors.{Result, Error, ok, err, is_error, transaction_not_found, wrap}
use nsp_platform.Saga.Runtime.{
  Env, World, fails, ◌>>=◌, pure, raise, annotate, statement, query, on_option,
}
use nsp_platform.Saga.Chains.{bind-world, bind-err}
use nsp_platform.Saga.Store.Transactions.{get_transaction}
use nsp_platform.Saga.Store.Steps.{get_steps}
use nsp_platform.Saga.Engine.{TransactionStatus, query_transaction, transaction_view}
use nsp_platform.Saga.Engine.Wait.{
  Loop, wait_with_timer, after_wait, on_status, on_failure, on_query, wait_loop,
  wait_for_transaction, query_retry_limit, poll_interval, backoff,
}

abbrev pub Returns : {A : Type 0} → Option A → Type 0
Returns {A = A} o = (r : A) × (o ≡ some r)

module _ (env : Env) where
  -- A query is at least one effect.
  query_transaction-tick : (id : String) (w : World) → w.tick < (query_transaction env id w).1.tick
  unfolding query_transaction on_option raise pure annotate query statement
  query_transaction-tick id w =
      bind-world (λ w'. w.tick < w'.tick)
        (annotate "failed to get transaction" (query env (get_transaction id))) _ w (omega arith)
        λ found. viewed found
    where
      after : World
      after = (annotate "failed to get transaction" (query env (get_transaction id)) w).1

      viewed :
          (found : Option Transaction)
          → w.tick
            < (on_option found
                (λ tx. annotate "failed to get steps" (query env (get_steps id)) >>= λ steps.
                  pure (transaction_view tx steps))
                (raise (wrap transaction_not_found id))
                after).1.tick
      viewed none = omega arith
      viewed (some tx) =
          bind-world (λ w'. w.tick < w'.tick)
            (annotate "failed to get steps" (query env (get_steps id))) _ after (omega arith)
            λ steps. omega arith

  module _ (by_deadline : Bool) where
    after_wait-Returns :
        (delay : ℕ) (again : Loop) (last : Option TransactionStatus) (w : World)
        → (env.is_done w.tick ≡ false → Returns (again (record w { tick = suc w.tick })).0)
        → Returns
            (after_wait env by_deadline again last (wait_with_timer env by_deadline delay w)).0
    unfolding wait_with_timer
    after_wait-Returns delay again last w h = elim (Bool-cases (env.is_done w.tick)) [
      | inl e ↦ rw e (_, refl)
      | inr e ↦ rw e (h e)
    ]

    on_status-Returns :
        (again : Loop) (status : TransactionStatus) (w : World)
        → (env.is_done w.tick ≡ false → Returns (again (record w { tick = suc w.tick })).0)
        → Returns (on_status env by_deadline again status w).0
    unfolding on_status
    on_status-Returns again status w h = elim (Bool-cases (str_eq status.status "succeeded")) [
      | inl e ↦ rw e (_, refl)
      | inr e ↦ elim (Bool-cases (str_eq status.status "failed")) [
        | inl f ↦ rw (e, f) (_, refl)
        | inr f ↦ rw (e, f) (after_wait-Returns poll_interval again (some status) w h)
      ]
    ]

    on_failure-Returns :
        (id : String) (again : Loop) (last : Option TransactionStatus) (failures : ℕ) (e : Error)
        (w : World)
        → (failures < query_retry_limit
            → env.is_done w.tick ≡ false
            → Returns (again (record w { tick = suc w.tick })).0)
        → Returns (on_failure env by_deadline id again last failures e w).0
    unfolding on_failure
    on_failure-Returns id again last failures e w h =
        elim (Bool-cases (is_error transaction_not_found e)) [
          | inl f ↦ rw f (_, refl)
          | inr f ↦ elim (Bool-cases (leb query_retry_limit failures)) [
            | inl g ↦ rw (f, g) (_, refl)
            | inr g ↦
                rw (f, g) (after_wait-Returns (backoff failures) again last w (h (ground arith)))
          ]
        ]

    on_query-Returns :
        (id : String) (rest : Option TransactionStatus → ℕ → Loop) (last : Option TransactionStatus)
        (failures : ℕ) (r : Result TransactionStatus × World)
        → ((last : Option TransactionStatus) (failures : ℕ)
            → env.is_done r.1.tick ≡ false
            → Returns (rest last failures (record r.1 { tick = suc r.1.tick })).0)
        → Returns (on_query env by_deadline id rest last failures r).0
    on_query-Returns id rest last failures (ok status, w) h =
        on_status-Returns (rest (some status) 0) status w (h (some status) 0)
    on_query-Returns id rest last failures (err e, w) h =
        on_failure-Returns id (rest last (suc failures)) last (suc failures) e w
          λ _. h last (suc failures)

    wait_loop-Returns :
        (end fuel : ℕ) (id : String) (last : Option TransactionStatus) (failures : ℕ) (w : World)
        → ((n : ℕ) → end ≤ n → env.is_done n ≡ true)
        → end ≤ w.tick + fuel
        → Returns (wait_loop env by_deadline (suc fuel) id last failures w).0
    unfolding wait_loop
    wait_loop-Returns end zero id last failures w done l =
        let later = query_transaction-tick id w in
        on_query-Returns id (wait_loop env by_deadline zero id) last failures
          (query_transaction env id w)
          λ last' failures' waits.
            cc (sym waits ∙ done (query_transaction env id w).1.tick (omega arith))
    wait_loop-Returns end (suc fuel) id last failures w done l =
        let later = query_transaction-tick id w in
        on_query-Returns id (wait_loop env by_deadline (suc fuel) id) last failures
          (query_transaction env id w)
          λ last' failures' waits.
            wait_loop-Returns end fuel id last' failures' _ done (omega arith)

    -- The caller's context ends the wait: if it has ended from some effect on, as many rounds as
    -- there are effects until then, and one more, are enough for waitForTransaction to return.
    pub wait-Returns :
        (end fuel : ℕ) (id : String) (w : World)
        → ((n : ℕ) → end ≤ n → env.is_done n ≡ true)
        → end ≤ w.tick + fuel
        → Returns (wait_for_transaction env by_deadline (suc fuel) id w).0
    unfolding wait_for_transaction
    wait-Returns end fuel id w done l = wait_loop-Returns end fuel id none 0 w done l

  module _ (failing : (n : ℕ) → (text : String) × (env.fault n ≡ fails text)) where
    query-fails :
        {A : Type 0} (text : String) (f : nsp_platform.Saga.Store.Tables.Db → A) (w : World)
        → (e : Error) × ((annotate text (query env f) w).0 ≡ err e)
    unfolding annotate query statement
    query-fails text f w = let (s, e) = failing w.tick in rw e (_, refl)

    query_transaction-fails :
        (id : String) (w : World) → (e : Error) × ((query_transaction env id w).0 ≡ err e)
    unfolding query_transaction
    query_transaction-fails id w =
        let (e, h) = query-fails "failed to get transaction" (get_transaction id) w in
        (
          e,
          ap (λ r. r.0)
              (bind-err (annotate "failed to get transaction" (query env (get_transaction id))) _ w
                e h),
        )

    module _ (by_deadline : Bool) where
      on_query-failing :
          (id : String) (rest : Option TransactionStatus → ℕ → Loop)
          (last : Option TransactionStatus) (failures : ℕ) (r : Result TransactionStatus × World)
          (e : Error)
          → r.0 ≡ err e
          → (suc failures < query_retry_limit
              → (w : World) → Returns (rest last (suc failures) w).0)
          → Returns (on_query env by_deadline id rest last failures r).0
      on_query-failing id rest last failures (ok status, w) e f h = cc f
      on_query-failing id rest last failures (err e', w) e f h =
          on_failure-Returns by_deadline id (rest last (suc failures)) last (suc failures) e' w
            λ few _. h few _

      wait_loop-gives_up :
          (fuel : ℕ) (id : String) (last : Option TransactionStatus) (failures : ℕ) (w : World)
          → query_retry_limit ≤ failures + suc fuel
          → Returns (wait_loop env by_deadline (suc fuel) id last failures w).0
      unfolding wait_loop
      wait_loop-gives_up zero id last failures w l =
          let (e, h) = query_transaction-fails id w in
          on_query-failing id (wait_loop env by_deadline zero id) last failures _ e h
            λ few. absurd (omega arith)
      wait_loop-gives_up (suc fuel) id last failures w l =
          let (e, h) = query_transaction-fails id w in
          on_query-failing id (wait_loop env by_deadline (suc fuel) id) last failures _ e h
            λ few w'. wait_loop-gives_up fuel id last (suc failures) w' (omega arith)

      -- Where every statement fails, three rounds are enough for waitForTransaction to return,
      -- although the caller's context may never end.
      pub wait-gives_up :
          (id : String) (w : World) → Returns (wait_for_transaction env by_deadline 3 id w).0
      unfolding wait_for_transaction
      wait-gives_up id w = wait_loop-gives_up 2 id none 0 w (omega arith)
