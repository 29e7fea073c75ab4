-- ===== src/Saga/Builder/Laws.antt =====
-- What `Build` accepts, and what the definition that it returns looks like.
use nsp_platform.Base.{
  ℕ, suc, ◌<◌, ◌≡◌, refl, ap, inl, inr, ◌∙◌, false, List, [], ◌∷◌, Option, none, some, String,
  Bool-cases, arith, Option-cases,
}
use nsp_platform.Base.Int.{is_zero}
use nsp_platform.Base.Lists.{All, length}
use nsp_platform.Base.Text.{is_empty}
use nsp_platform.Saga.Definition.{Step, async, StepStatus, SagaDefinition}
use nsp_platform.Saga.Builder.{
  SagaBuilder, BuildError, ok, is_unset, or_get, check_step, set_defaults, build_steps, finish,
  build_on, build,
}

-- What `Build` asks of a step.
pub record IsAcceptable (s : Step) : Type 0 where
  pub has_action : (is_empty s.action_method ≡ false) × (is_empty s.action_url ≡ false)
  pub has_compensation :
      (is_empty s.compensate_method ≡ false) × (is_empty s.compensate_url ≡ false)
  pub has_poll_config :
      s.step_type ≡ async
      → (is_empty s.poll_url ≡ false)
        × (is_empty s.poll_success_path ≡ false)
        × (is_empty s.poll_success_value ≡ false)

-- A step that the engine can execute as the `i`-th of its saga.
pub record IsReady (i : ℕ) (s : Step) : Type 0 where
  pub acceptable : IsAcceptable s
  pub has_type : is_unset s.step_type ≡ false
  pub has_poll_method : is_empty s.poll_method ≡ false
  pub has_limits :
      (is_zero s.poll_interval_sec ≡ false)
      × (is_zero s.poll_max_times ≡ false)
      × (is_zero s.max_retry ≡ false)
  pub at_index : s.index ≡ i
  pub is_pending : s.status ≡ StepStatus.pending

abbrev pub AllReady : ℕ → List Step → Type 0
AllReady i [] = Unit
AllReady i (s ∷ steps) = IsReady i s × AllReady (suc i) steps

or_get-not_empty : (m : String) → is_empty (or_get m) ≡ false
or_get-not_empty m = elim (Bool-cases (is_empty m)) [ inl e ↦ rw e | inr e ↦ rw e e ]

or_get-or_get : (m : String) → or_get (or_get m) ≡ or_get m
or_get-or_get m = rw (or_get-not_empty m)

check-IsAcceptable : (s : Step) → check_step s ≡ none → IsAcceptable s
unfolding check_step
check-IsAcceptable s h = ground arith

check_step-accepts : (s : Step) → IsAcceptable s → check_step s ≡ none
unfolding check_step
check_step-accepts s h = ground arith

set_defaults-IsReady : (i : ℕ) (s : Step) → check_step s ≡ none → IsReady i (set_defaults i s)
unfolding check_step set_defaults
set_defaults-IsReady i s h = ground (arith, or_get-not_empty s.poll_method)

check-set_defaults : (i : ℕ) (s : Step) → check_step s ≡ none → check_step (set_defaults i s) ≡ none
unfolding check_step set_defaults
check-set_defaults i s h = ground arith

set_defaults-set_defaults :
    (i : ℕ) (s : Step) → set_defaults i (set_defaults i s) ≡ set_defaults i s
unfolding set_defaults
set_defaults-set_defaults i s = ground (arith, or_get-or_get s.poll_method)

build_steps-AllReady :
    (i : ℕ) (steps : List Step)
    → (build_steps i steps).1 ≡ none
    → AllReady i (build_steps i steps).0
unfolding build_steps
build_steps-AllReady i [] h = tt
build_steps-AllReady i (s ∷ steps) h = elim (Option-cases (check_step s)) [
  | inl e ↦
      rw (e, build_steps)
        (set_defaults-IsReady i s e, build_steps-AllReady (suc i) steps (rw (e, build_steps) at h))
  | inr (x, e) ↦ cc (rw (e, build_steps) at h)
]

length-build_steps : (i : ℕ) (steps : List Step) → length (build_steps i steps).0 ≡ length steps
unfolding build_steps
length-build_steps i [] = refl
length-build_steps i (s ∷ steps) = ground (arith, length-build_steps (suc i) steps)

build_steps-accepts :
    (i : ℕ) (steps : List Step) → All IsAcceptable steps → (build_steps i steps).1 ≡ none
unfolding build_steps
build_steps-accepts i [] h = refl
build_steps-accepts i (s ∷ steps) h =
    rw (check_step-accepts s h.0, build_steps) (build_steps-accepts (suc i) steps h.1)

build_steps-build_steps :
    (i : ℕ) (steps : List Step) → build_steps i (build_steps i steps).0 ≡ build_steps i steps
unfolding build_steps
build_steps-build_steps i [] = refl
build_steps-build_steps i (s ∷ steps) = elim (Option-cases (check_step s)) [
  | inl e ↦ ground (
    arith,
    e,
    check-set_defaults i s e,
    set_defaults-set_defaults i s,
    build_steps-build_steps (suc i) steps,
  )
  | inr (x, e) ↦ ground arith
]

-- What the loop left, with the builder's other fields.
abbrev built : SagaBuilder → List Step → SagaDefinition
built b steps = record {
  id = "";
  name = b.name;
  steps = steps;
  timeout_sec = b.timeout_sec;
  payload = b.payload;
}

finish-ok :
    (b : SagaBuilder) (r : List Step × Option BuildError) (d : SagaDefinition)
    → (finish b r).0 ≡ ok d
    → (r.1 ≡ none) × (d ≡ built b r.0)
unfolding finish
finish-ok b (steps, some e) d h = cc
finish-ok b (steps, none) d h = (refl, ground arith)

-- What the definition owes to the builder and its steps.
abbrev pub IsBuilt : SagaBuilder → List Step → SagaDefinition → Type 0
IsBuilt b steps d =
    AllReady 0 d.steps
    × (length d.steps ≡ length steps)
    × (0 < length d.steps)
    × (d.name ≡ b.name)
    × (d.timeout_sec ≡ b.timeout_sec)
    × (d.payload ≡ b.payload)

build_on-ok :
    (b : SagaBuilder) (steps : List Step) (d : SagaDefinition)
    → (build_on b steps).0 ≡ ok d
    → IsBuilt b steps d
unfolding build_on
build_on-ok b [] d h = cc
build_on-ok b (s ∷ rest) d h =
    let (clean, e) = finish-ok b (build_steps 0 (s ∷ rest)) d h in
    let many = length-build_steps 0 (s ∷ rest) in
    rw e (build_steps-AllReady 0 (s ∷ rest) clean, many, omega (arith, many), refl, refl, refl)

finish-accepts :
    (b : SagaBuilder) (r : List Step × Option BuildError)
    → r.1 ≡ none
    → (finish b r).0 ≡ ok (built b r.0)
unfolding finish
finish-accepts b (steps, some e) h = cc
finish-accepts b (steps, none) h = refl

build_on-accepts :
    (b : SagaBuilder) (steps : List Step)
    → 0 < length steps
    → All IsAcceptable steps
    → (d : SagaDefinition) × ((build_on b steps).0 ≡ ok d)
unfolding build_on
build_on-accepts b [] nonempty h = elim nonempty [ ]
build_on-accepts b (s ∷ rest) nonempty h =
    (_, finish-accepts b (build_steps 0 (s ∷ rest)) (build_steps-accepts 0 (s ∷ rest) h))

steps-finish : (b : SagaBuilder) (r : List Step × Option BuildError) → (finish b r).1.steps ≡ r.0
unfolding finish
steps-finish b (steps, some e) = refl
steps-finish b (steps, none) = refl

-- The builder that is left differs in its steps alone, and `finish` does not read those.
finish-finish :
    (b : SagaBuilder) (r q : List Step × Option BuildError) → finish (finish b r).1 q ≡ finish b q
unfolding finish
finish-finish b (steps, some e) (_, some _) = refl
finish-finish b (steps, some e) (_, none) = refl
finish-finish b (steps, none) (_, some _) = refl
finish-finish b (steps, none) (_, none) = refl

build_on-eq-finish :
    (b : SagaBuilder) (steps : List Step)
    → 0 < length steps
    → build_on b steps ≡ finish b (build_steps 0 steps)
unfolding build_on
build_on-eq-finish b [] h = elim h [ ]
build_on-eq-finish b (s ∷ rest) h = refl

build_on-build_on :
    (b : SagaBuilder) (steps : List Step)
    → b.steps ≡ steps
    → (let b' = (build_on b steps).1 in build_on b' b'.steps) ≡ build_on b steps
unfolding build_on
build_on-build_on b [] e = ap (build_on b) e
build_on-build_on b (s ∷ rest) e =
    let r = build_steps 0 (s ∷ rest) in
    ap (build_on (finish b r).1) (steps-finish b r)
    ∙ build_on-eq-finish _ r.0 (omega (arith, length-build_steps 0 (s ∷ rest)))
    ∙ ap (finish (finish b r).1) (build_steps-build_steps 0 (s ∷ rest))
    ∙ finish-finish b r r

-- A definition that `Build` returns has at least one step and as many as were added, each of them
-- is ready to be executed at its position (action and compensation set, polling configured if
-- asynchronous, no limit left at 0, pending), and name, timeout and payload are the builder's.
pub build-ok : (b : SagaBuilder) (d : SagaDefinition) → (build b).0 ≡ ok d → IsBuilt b b.steps d
unfolding build
build-ok b d h = build_on-ok b b.steps d h

-- `Build` succeeds on every builder with at least one step whose steps all have an action, a
-- compensation and, if asynchronous, a poll configuration.
pub build-accepts :
    (b : SagaBuilder)
    → 0 < length b.steps
    → All IsAcceptable b.steps
    → (d : SagaDefinition) × ((build b).0 ≡ ok d)
unfolding build
build-accepts b nonempty h = build_on-accepts b b.steps nonempty h

-- Building again the builder that a `Build` left behind, whether it succeeded or not, gives the
-- same result and changes no step any more.
pub build-build : (b : SagaBuilder) → build (build b).1 ≡ build b
unfolding build
build-build b = build_on-build_on b b.steps refl
