-- ===== src/Saga/Coordinator/Laws.antt =====
-- The queue of saga/coordinator.go and the loop over the steps.
use nsp_platform.Base.{
  ◌↔◌, ℕ, suc, ◌≤◌, ltb, String, ◌≡◌, refl, Bool, true, false, List, [], ◌∷◌, ◌++◌, Option, none,
  str_eq, str_eq_refl, arith, Bool-cases, inl, inr,
}
use nsp_platform.Base.Lists.{All, length, any_row}
use nsp_platform.Saga.Definition.{Step, StepStatus}
use nsp_platform.Saga.Runtime.{World}
use nsp_platform.Saga.Coordinator.Forward.{scanned, scan_steps}
use nsp_platform.Saga.Coordinator.Drive.{queue_capacity, submit}

ltb-lt : (a b : ℕ) → ltb a b ≡ true → suc a ≤ b
ltb-lt a b h = ground arith

length-snoc : (xs : List String) (x : String) → length (xs ++ x ∷ []) ≡ suc (length xs)
length-snoc [] x = refl
length-snoc (y ∷ xs) x = omega (arith, length-snoc xs x)

any_row-head : (id : String) (xs : List String) → any_row (str_eq id) (id ∷ xs) ≡ true
any_row-head id xs = rw (str_eq_refl id, any_row) refl

submit-active :
    (id : String) (w : World) → any_row (str_eq id) w.active_tx ≡ true → submit id w ≡ (false, w)
unfolding submit
submit-active id w e = rw e refl

abbrev pub queued_in : String → World → World
queued_in id w = record w { active_tx = id ∷ w.active_tx; task_queue = w.task_queue ++ id ∷ [] }

submit-queued :
    (id : String) (w : World) → (submit id w).0 ≡ true → submit id w ≡ (true, queued_in id w)
unfolding submit
submit-queued id w h = elim (Bool-cases (any_row (str_eq id) w.active_tx)) [
  | inl e ↦ cc (rw e at h)
  | inr e ↦ elim (Bool-cases (ltb (length w.task_queue) queue_capacity)) [
    | inl k ↦ rw (e, k) refl
    | inr k ↦ cc (rw (e, k) at h)
  ]
]

-- A transaction that Submit has queued is not queued a second time while it is active.
pub submit-submit :
    (id : String) (w : World)
    → (submit id w).0 ≡ true
    → submit id (submit id w).1 ≡ (false, (submit id w).1)
submit-submit id w h =
    rw (submit-queued id w h) (submit-active id (queued_in id w) (any_row-head id w.active_tx))

abbrev pub HasSucceeded : Step → Type 0
HasSucceeded step = step.status ≡ StepStatus.succeeded

scan_steps-All :
    (current : Option Step) (all : Bool) (steps : List Step) (found : Option Step)
    → scan_steps current all steps ≡ scanned found true
    → (all ≡ true) × All HasSucceeded steps
unfolding scan_steps
scan_steps-All current all [] found h = (scanned_is h, tt)
  where
    scanned_is : {c d : Option Step} {a b : Bool} → scanned c a ≡ scanned d b → a ≡ b
    scanned_is e = cc e
scan_steps-All current all (step ∷ steps) found h =
    (elim step.status
        as (λ s.
          scan_steps current all (record step { status = s } ∷ steps) ≡ scanned found true
          → (all ≡ true) × All HasSucceeded (record step { status = s } ∷ steps)) [
            | StepStatus.pending ↦ λ h. cc ((scan_steps-All _ false steps found h).0)
            | StepStatus.running ↦ λ h. cc ((scan_steps-All _ false steps found h).0)
            | StepStatus.polling ↦ λ h. cc ((scan_steps-All _ false steps found h).0)
            | StepStatus.succeeded ↦
                λ h. let (a, rest) = scan_steps-All current all steps found h in (a, (refl, rest))
            | StepStatus.failed ↦ λ h. cc h
            | StepStatus.compensating ↦ λ h. cc ((scan_steps-All _ false steps found h).0)
            | StepStatus.compensated ↦ λ h. cc ((scan_steps-All _ false steps found h).0)
            | StepStatus.skipped ↦ λ h. cc ((scan_steps-All _ false steps found h).0)
          ])
      h

All-scan_steps :
    (current : Option Step) (steps : List Step)
    → All HasSucceeded steps
    → scan_steps current true steps ≡ scanned current true
unfolding scan_steps
All-scan_steps current [] h = refl
All-scan_steps current (step ∷ steps) h = rw h.0 (All-scan_steps current steps h.1)

-- The loop over the steps reports that all have succeeded, upon which the coordinator closes the
-- transaction as succeeded, exactly if every step has the status succeeded.
pub scan_steps-succeeded :
    (steps : List Step)
    → ((found : Option Step) × (scan_steps none true steps ≡ scanned found true))
      ↔ All HasSucceeded steps
scan_steps-succeeded steps = (
  λ (found, h). (scan_steps-All none true steps found h).1,
  λ h. (none, All-scan_steps none steps h),
)
