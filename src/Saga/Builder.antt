-- ===== src/Saga/Builder.antt =====
-- saga/definition.go: `SagaBuilder` and its `Build`.
pub mod Laws
use mathlib.Core.List.{◌++◌}
use nsp_platform.Base.{
  ℕ, suc, String, List, [], ◌∷◌, Bool, true, false, ◌||◌, Option, none, some, if◌then◌else◌,
}
use nsp_platform.Base.Int.{ℤ, pos, is_zero}
use nsp_platform.Base.Text.{is_empty}
use nsp_platform.Json.{Object, end}
use nsp_platform.Saga.Definition.{Step, StepType, sync, async, other, StepStatus, SagaDefinition}

pub record SagaBuilder : Type 0 where
  pub name : String
  pub steps : List Step
  pub timeout_sec : ℤ
  pub payload : Object

pub data BuildError : Type 0 where
  no_steps async_step_missing_poll_config step_missing_action step_missing_compensate : BuildError

pub data Result {ℓ} (A : Type ℓ) : Type ℓ where
  ok : A → Result A
  err : BuildError → Result A

unfoldable pub new_saga : String → SagaBuilder
new_saga name = record { name = name; steps = []; timeout_sec = pos 0; payload = some end }

unfoldable pub add_step : SagaBuilder → Step → SagaBuilder
add_step b step = record b { steps = b.steps ++ step ∷ [] }

unfoldable pub with_timeout : SagaBuilder → ℤ → SagaBuilder
with_timeout b seconds = record b { timeout_sec = seconds }

unfoldable pub with_payload : SagaBuilder → Object → SagaBuilder
with_payload b payload = record b { payload = payload }

abbrev is_async : StepType → Bool
is_async async = true
is_async _ = false

-- The checks of one round of the loop; `none` passes them all.
unfoldable pub check_step : Step → Option BuildError
check_step step =
    if is_empty step.action_method || is_empty step.action_url
    then some step_missing_action
    else if is_empty step.compensate_method || is_empty step.compensate_url
    then some step_missing_compensate
    else if is_async step.step_type
    then if is_empty step.poll_url
        || is_empty step.poll_success_path
        || is_empty step.poll_success_value
      then some async_step_missing_poll_config
      else none
    else none

-- `step.Type == ""`.
abbrev is_unset : StepType → Bool
is_unset sync = false
is_unset async = false
is_unset (other t) = is_empty t

abbrev or_default : ℤ → ℕ → ℤ
or_default v d = if is_zero v then pos d else v

abbrev or_get : String → String
or_get m = if is_empty m then "GET" else m

-- The defaults that a round writes into `b.steps[i]`.
unfoldable pub set_defaults : ℕ → Step → Step
set_defaults i step = record step {
  step_type = if is_unset step.step_type then sync else step.step_type;
  poll_method = or_get step.poll_method;
  poll_interval_sec = or_default step.poll_interval_sec 5;
  poll_max_times = or_default step.poll_max_times 60;
  max_retry = or_default step.max_retry 3;
  index = i;
  status = StepStatus.pending;
}

-- The loop: the steps as it leaves them in `b.steps`, and the error that it returned with.
unfoldable pub build_steps : ℕ → List Step → List Step × Option BuildError
unfolding check_step set_defaults
build_steps i [] = ([], none)
build_steps i (step ∷ steps) =
    let rest = build_steps (suc i) steps in
    elim (check_step step) [
      | some e ↦ (step ∷ steps, some e)
      | none ↦ (set_defaults i step ∷ rest.0, rest.1)
    ]

-- What follows the loop, on what it left: the definition or the error, and the builder, whose slice
-- the loop has written to.
unfoldable pub finish :
    SagaBuilder → List Step × Option BuildError → Result SagaDefinition × SagaBuilder
finish b (steps, some e) = (err e, record b { steps = steps })
finish b (steps, none) = (
  ok (record {
    id = "";
    name = b.name;
    steps = steps;
    timeout_sec = b.timeout_sec;
    payload = b.payload;
  }),
  record b { steps = steps },
)

unfoldable pub build_on : SagaBuilder → List Step → Result SagaDefinition × SagaBuilder
build_on b [] = (err no_steps, b)
build_on b (s ∷ rest) = finish b (build_steps 0 (s ∷ rest))

unfoldable pub build : SagaBuilder → Result SagaDefinition × SagaBuilder
unfolding build_on
build b = build_on b b.steps
