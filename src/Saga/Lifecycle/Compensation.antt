-- ===== src/Saga/Lifecycle/Compensation.antt =====
-- executeCompensation of saga/coordinator.go closes a transaction that has been seen compensating.
use nsp_platform.Base.{ℕ, String, Bool, true, false, List, [], ◌∷◌}
use nsp_platform.Saga.Definition.{Step, Transaction, TxStatus}
use nsp_platform.Saga.Store.Tables.{Db}
use nsp_platform.Saga.Runtime.{Env, M}
use nsp_platform.Saga.Executor.{Context}
use nsp_platform.Saga.Coordinator.Compensation.{
  Outcome, interrupted, through, is_pending, compensate_all, skip_all, finish, execute_compensation,
}
use nsp_platform.Saga.Frame.{
  Follows-ignore, Rely, Follows, Follows-pure, Follows-ask, Follows-bind, Follows-attempt,
  Follows-if, Follows-statement, Follows-on_result,
}
use nsp_platform.Saga.Frame.Executor.{Follows-set_status}
use nsp_platform.Saga.Frame.Compensation.{Follows-compensate_step}
use nsp_platform.Saga.Lifecycle.{Evolves}
use nsp_platform.Saga.Lifecycle.Writes.{
  Seen, Seen-Evolves, Evolves-refl, Evolves-trans, Evolves-frame, update_transaction_status-Evolves,
}

-- The transactions evolve, provided that this one has been seen with that status.
abbrev pub SeenThen : String → TxStatus → Db → Db → Type 0
SeenThen id s a b = Seen id s a → Evolves a b

module _ (env : Env) (others : (n : ℕ) (db : Db) → Evolves db (env.others n db)) where
  pub SeenThen-rely : (id : String) (s : TxStatus) → Rely env (SeenThen id s)
  SeenThen-rely id s = record {
    R_refl = λ a seen. Evolves-refl a;
    R_trans =
        λ a b c h k seen. Evolves-trans a b c (h seen) (k (Seen-Evolves id s a b (h seen) seen));
    R_others = λ n db seen. others n db;
    R_frame = λ a b same seen. Evolves-frame a b same;
  }

  pub Follows-seen :
      {A : Type 0} (id : String) (s : TxStatus) (m : M A)
      → Follows Evolves m
      → Follows (SeenThen id s) m
  Follows-seen id s m h = record { at = λ w seen. h.at w }

  module _ (ctx : Context) (tx : Transaction) where
    abbrev R : Db → Db → Type 0
    R = SeenThen tx.id TxStatus.compensating

    abbrev rely : Rely env R
    rely = SeenThen-rely tx.id TxStatus.compensating

    pub Follows-compensate_all :
        (all : Bool) (steps todo : List Step) → Follows R (compensate_all env ctx tx all steps todo)
    unfolding compensate_all
    Follows-compensate_all all steps [] = Follows-pure rely _
    Follows-compensate_all all steps (step ∷ rest) =
        Follows-bind rely _ _ (Follows-ask rely _) λ stop.
          Follows-if rely stop _ _ (Follows-pure rely _) (
            Follows-bind rely _ _
              (Follows-attempt rely _ (Follows-compensate_step rely ctx tx step steps))
              λ result.
                Follows-on_result result _ _ (λ _. Follows-compensate_all all _ rest)
                  (λ e. Follows-compensate_all false steps rest))

    pub Follows-skip_all : (steps : List Step) → Follows R (skip_all env ctx tx steps)
    unfolding skip_all
    Follows-skip_all [] = Follows-pure rely tt
    Follows-skip_all (step ∷ steps) =
        Follows-bind rely _ _
          (Follows-if rely (is_pending step.status) _ _
            (Follows-ignore rely _ (Follows-set_status rely _ _ _)) (Follows-pure rely tt))
          λ _. Follows-skip_all steps

    Follows-finish :
        (steps : List Step) (outcome : Outcome) → Follows R (finish env ctx tx steps outcome)
    unfolding finish
    Follows-finish steps interrupted = Follows-pure rely tt
    Follows-finish steps (through all) = Follows-bind rely _ _ (Follows-skip_all steps) λ _.
        Follows-ignore rely _ (
          Follows-statement rely _
            (λ now db_now. update_transaction_status-Evolves now db_now tx.id _))

    pub Follows-execute_compensation :
        (steps : List Step) → Follows R (execute_compensation env ctx tx steps)
    unfolding execute_compensation
    Follows-execute_compensation steps =
        Follows-bind rely _ _ (Follows-compensate_all true steps _)
          λ outcome. Follows-finish steps outcome
