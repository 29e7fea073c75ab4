-- ===== src/Saga/Lifecycle/Forward.antt =====
-- executeNextStep of saga/coordinator.go moves transactions along their life only.
use nsp_platform.Base.{
  ℕ, Bool-cases, inl, inr, String, ◌≡◌, refl, Bool, true, false, ◌||◌, List, Option, none, some,
}
use nsp_platform.Saga.Definition.{Step, sync, async, other, StepStatus, Transaction, TxStatus}
use nsp_platform.Saga.Errors.{Error, Result, ok, err, is_error, step_retryable, execution_timeout}
use nsp_platform.Saga.Store.Tables.{Db}
use nsp_platform.Saga.Runtime.{Env, World, M, ◌>>◌, pure, Wakeup, PollResult}
use nsp_platform.Saga.Executor.{Context}
use nsp_platform.Saga.Poller.{has_channel, register_notify, unregister_notify}
use nsp_platform.Saga.Coordinator.Forward.{
  Scan, found_failed, scanned, update_status_cas, trigger_compensation, unless_timed_out,
  unless_late, advance, after_error, execute_sync_step, on_wakeup, on_latest, on_reloaded,
  wait_for_async_step, execute_async, execute, resume, work_on, after_scan, execute_next_step,
}
use nsp_platform.Saga.Frame.{
  Follows-ignore, Rely, Follows, Follows-pure, Follows-ask, Follows-modify, Follows-bind,
  Follows-attempt, Follows-if, Follows-statement, Follows-query, Follows-on_result,
}
use nsp_platform.Saga.Frame.Executor.{
  Follows-transaction_timed_out, Follows-execution_timed_out, Follows-execute_step,
  Follows-execute_async_step,
}
use nsp_platform.Saga.Lifecycle.{Reach, Evolves}
use nsp_platform.Saga.Lifecycle.Writes.{
  Evolves-rely, update_transaction_status_cas-Evolves, update_transaction_step-Evolves,
}

register_notify-db : (id : String) (w : World) → (register_notify id w).db ≡ w.db
unfolding register_notify
register_notify-db id w = elim (Bool-cases (has_channel id w.notify_chan)) [
  | inl e ↦ rw e refl
  | inr e ↦ rw e refl
]

unregister_notify-db : (id : String) (w : World) → (unregister_notify id w).db ≡ w.db
unfolding unregister_notify
unregister_notify-db id w = refl

module _ (env : Env) (others : (n : ℕ) (db : Db) → Evolves db (env.others n db)) where
  abbrev rely : Rely env Evolves
  rely = Evolves-rely env others

  pub Follows-update_status_cas :
      (id : String) (expected new : TxStatus) (e : String)
      → Reach expected new
      → Follows Evolves (update_status_cas env id expected new e)
  unfolding update_status_cas
  Follows-update_status_cas id expected new e move =
      Follows-statement rely _ (λ now db_now db.
        update_transaction_status_cas-Evolves now db_now id expected new e db move)

  Follows-compensate :
      (tx : Transaction) (reason : String) → Follows Evolves (trigger_compensation env tx reason)
  unfolding trigger_compensation
  Follows-compensate tx reason =
      Follows-ignore rely _ (Follows-update_status_cas _ _ _ _ (Reach.compensates Reach.stays))

  Follows-compensate_true :
      (tx : Transaction) (reason : String)
      → Follows Evolves (trigger_compensation env tx reason >> pure true)
  Follows-compensate_true tx reason =
      Follows-bind rely _ _ (Follows-compensate tx reason) λ _. Follows-pure rely true

  Follows-unless_timed_out :
      (tx : Transaction) (m : M Bool)
      → Follows Evolves m
      → Follows Evolves (unless_timed_out env tx m)
  unfolding unless_timed_out
  Follows-unless_timed_out tx m h =
      Follows-bind rely _ _ (Follows-transaction_timed_out rely tx)
        λ late. Follows-if rely late _ _ (Follows-compensate_true tx _) h

  Follows-unless_late :
      (tx : Transaction) (deadline : Option ℕ) (m : M Bool)
      → Follows Evolves m
      → Follows Evolves (unless_late env tx deadline m)
  unfolding unless_late
  Follows-unless_late tx deadline m h =
      Follows-bind rely _ _ (Follows-transaction_timed_out rely tx) λ late.
        Follows-bind rely _ _ (Follows-execution_timed_out rely deadline)
          λ expired. Follows-if rely (late || expired) _ _ (Follows-compensate_true tx _) h

  Follows-advance : (tx : Transaction) (index : ℕ) → Follows Evolves (advance env tx index)
  unfolding advance
  Follows-advance tx index =
      Follows-bind rely _ _
        (Follows-ignore rely _ (
          Follows-statement rely _
            (λ now db_now. update_transaction_step-Evolves db_now tx.id index)))
        λ _. Follows-pure rely true

  Follows-after_error : (tx : Transaction) (e : Error) → Follows Evolves (after_error env tx e)
  unfolding after_error
  Follows-after_error tx e =
      Follows-if rely (is_error execution_timeout e) _ _ (Follows-compensate_true tx _) (
        Follows-if rely (is_error step_retryable e) _ _ (Follows-pure rely true)
          (Follows-compensate_true tx _))

  Follows-execute_sync_step :
      (ctx : Context) (tx : Transaction) (step : Step) (steps : List Step)
      → Follows Evolves (execute_sync_step env ctx tx step steps)
  unfolding execute_sync_step
  Follows-execute_sync_step ctx tx step steps = Follows-unless_timed_out tx _ (
      Follows-bind rely _ _ (Follows-attempt rely _ (Follows-execute_step rely _ tx step steps))
        λ r.
          Follows-on_result r _ _ (λ _. Follows-unless_late tx _ _ (Follows-advance tx _))
            (Follows-after_error tx))

  Follows-on_wakeup :
      (tx : Transaction) (step : Step) (deadline : Option ℕ) (wakeup : Wakeup)
      → Follows Evolves (on_wakeup env tx step deadline wakeup)
  unfolding on_wakeup
  Follows-on_wakeup tx step deadline Wakeup.timed_out =
      Follows-bind rely _ _ (Follows-execution_timed_out rely deadline) λ expired.
        Follows-bind rely _ _ (Follows-transaction_timed_out rely tx)
          λ late. Follows-compensate_true tx _
  Follows-on_wakeup tx step deadline Wakeup.stopped = Follows-pure rely false
  Follows-on_wakeup tx step deadline (Wakeup.notified PollResult.success) = Follows-advance tx _
  Follows-on_wakeup tx step deadline (Wakeup.notified PollResult.failure) =
      Follows-compensate_true tx _
  Follows-on_wakeup tx step deadline (Wakeup.notified PollResult.timeout) =
      Follows-compensate_true tx _
  Follows-on_wakeup tx step deadline (Wakeup.notified PollResult.error) = Follows-pure rely true
  Follows-on_wakeup tx step deadline (Wakeup.notified PollResult.pending) = Follows-pure rely false

  Follows-on_latest :
      (tx : Transaction) (step : Step) (deadline : Option ℕ) (latest : Step)
      → Follows Evolves (on_latest env tx step deadline latest)
  unfolding on_latest
  Follows-on_latest tx step deadline latest =
      let wait =
        Follows-bind rely _ _ (Follows-ask rely env.wakes) (Follows-on_wakeup tx step deadline) in
      elim latest.status
        as (λ s. Follows Evolves (on_latest env tx step deadline (record latest { status = s }))) [
          | StepStatus.succeeded ↦ Follows-unless_late tx deadline _ (Follows-advance tx _)
          | StepStatus.failed ↦ Follows-compensate_true tx _
          | StepStatus.compensating ↦ Follows-pure rely true
          | StepStatus.compensated ↦ Follows-pure rely true
          | StepStatus.skipped ↦ Follows-pure rely true
          | _ ↦ wait
        ]

  Follows-on_reloaded :
      (tx : Transaction) (step : Step) (deadline : Option ℕ) (r : Result (Option Step))
      → Follows Evolves (on_reloaded env tx step deadline r)
  unfolding on_reloaded
  Follows-on_reloaded tx step deadline (err e) = Follows-pure rely false
  Follows-on_reloaded tx step deadline (ok none) = Follows-compensate_true tx _
  Follows-on_reloaded tx step deadline (ok (some latest)) =
      Follows-on_latest tx step deadline latest

  Follows-wait_for_async_step :
      (tx : Transaction) (step : Step) → Follows Evolves (wait_for_async_step env tx step)
  unfolding wait_for_async_step
  Follows-wait_for_async_step tx step = Follows-unless_timed_out tx _ (
      Follows-bind rely _ _ (Follows-modify rely _ (register_notify-db tx.id)) λ _.
        Follows-bind rely _ _ (Follows-attempt rely _ (Follows-query rely _)) λ latest.
          Follows-bind rely _ _ (Follows-attempt rely _ (Follows-on_reloaded tx step _ latest))
            λ again.
              Follows-bind rely _ _ (Follows-modify rely _ (unregister_notify-db tx.id))
                λ _. Follows-on_result again _ _ (Follows-pure rely) (λ e. Follows-pure rely false))

  Follows-execute_async :
      (ctx : Context) (tx : Transaction) (step : Step) (steps : List Step)
      → Follows Evolves (execute_async env ctx tx step steps)
  unfolding execute_async
  Follows-execute_async ctx tx step steps = Follows-unless_timed_out tx _ (
      Follows-bind rely _ _
        (Follows-attempt rely _ (Follows-execute_async_step rely _ tx step steps))
        λ r.
          Follows-on_result r _ _
            (λ _. Follows-unless_late tx _ _ (Follows-wait_for_async_step tx step))
            (Follows-after_error tx))

  Follows-execute :
      (ctx : Context) (tx : Transaction) (step : Step) (steps : List Step)
      → Follows Evolves (execute env ctx tx step steps)
  Follows-execute ctx tx step steps =
      elim step.step_type
        as (λ t. Follows Evolves (execute env ctx tx (record step { step_type = t }) steps)) [
          | sync ↦ Follows-execute_sync_step ctx tx _ steps
          | async ↦ Follows-execute_async ctx tx _ steps
          | other _ ↦ Follows-execute_sync_step ctx tx _ steps
        ]

  Follows-resume :
      (ctx : Context) (tx : Transaction) (step : Step) (steps : List Step)
      → Follows Evolves (resume env ctx tx step steps)
  unfolding resume
  Follows-resume ctx tx step steps =
      elim step.step_type
        as (λ t. Follows Evolves (resume env ctx tx (record step { step_type = t }) steps)) [
          | sync ↦ Follows-execute_sync_step ctx tx _ steps
          | _ ↦ Follows-wait_for_async_step tx _
        ]

  Follows-work_on :
      (ctx : Context) (tx : Transaction) (steps : List Step) (step : Step)
      → Follows Evolves (work_on env ctx tx steps step)
  unfolding work_on
  Follows-work_on ctx tx steps step =
      elim step.status
        as (λ s. Follows Evolves (work_on env ctx tx steps (record step { status = s }))) [
          | StepStatus.pending ↦
              Follows-execute ctx tx (record step { status = StepStatus.pending }) steps
          | StepStatus.running ↦
              Follows-resume ctx tx (record step { status = StepStatus.running }) steps
          | StepStatus.polling ↦ Follows-wait_for_async_step tx _
          | _ ↦ Follows-pure rely false
        ]

  Follows-after_scan :
      (ctx : Context) (tx : Transaction) (steps : List Step) (scan : Scan)
      → Follows Evolves (after_scan env ctx tx steps scan)
  unfolding after_scan
  Follows-after_scan ctx tx steps (found_failed name) = Follows-compensate_true tx _
  Follows-after_scan ctx tx steps (scanned current true) = Follows-unless_timed_out tx _ (
      Follows-bind rely _ _
        (Follows-ignore rely _ (Follows-update_status_cas _ _ _ _ (Reach.succeeds Reach.stays)))
        λ _. Follows-pure rely false)
  Follows-after_scan ctx tx steps (scanned none false) = Follows-pure rely false
  Follows-after_scan ctx tx steps (scanned (some step) false) = Follows-work_on ctx tx steps step

  pub Follows-execute_next_step :
      (ctx : Context) (tx : Transaction) (steps : List Step)
      → Follows Evolves (execute_next_step env ctx tx steps)
  unfolding execute_next_step
  Follows-execute_next_step ctx tx steps =
      Follows-unless_timed_out tx _ (Follows-after_scan ctx tx steps _)
